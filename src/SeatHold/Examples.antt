-- ===== src/SeatHold/Examples.antt =====
-- The theorems on the seat holds, on a show with five seats left and one of its seats held.
use awstest.Prelude.{
  ℕ_discrete, ◌≡◌, ◌≢◌, inl, refl, true, false, none, some, [], ◌∷◌, arith, ◌==◌, ◌&&◌,
  if◌then◌else◌,
}
use awstest.Prelude.Int.{pos, negsuc, ◌-ℤ◌, ◌+ℤ◌}
use awstest.Redis.Commands.{num, doc, answer, after, apply}
use awstest.Redis.Program.{run}
use awstest.Redis.Simulation.{documented}
use awstest.Redis.Spares.{value_of}
use awstest.Cache.{seat, remain, text, Key-discrete, Member-discrete}
use awstest.Cache.Safe.{CacheValue, execute, scard, eval, sadd, expire, incr}
use awstest.SeatHold.Config.{Config, Scan}
use awstest.SeatHold.Views.{CacheStore, Server, owner}
use awstest.SeatHold.Guard.{any_confirmed, is_confirmed_text}
use awstest.SeatHold.Hold.{held, duplicate_seat, bump_hold_revision, try_hold_seats, release_seats}
use awstest.SeatHold.Counter.{try_decrease_remain_if_enough, adjust_remain, adjust_script}
use awstest.SeatHold.Counter.Exact.{try_decrease-exact, adjust_remain-exact, counted}
use awstest.SeatHold.Hold.Ownership.{try_hold-keeps_owner, release-keeps_owner}
use awstest.SeatHold.Hold.Outcomes.{try_hold-owns, try_hold-leaks}

abbrev server : Server
server = documented Key-discrete Member-discrete

abbrev settings : Config
settings = record { seat_hold_ttl = 300; soldout_ttl = 30; confirmed_ttl = 600 }

abbrev no_keys : Scan
no_keys = record { seat_keys = []; meta_refs = [] }

-- Seat 1-1 of show 1 is held by "other"; five seats are left.
abbrev show_1 : CacheStore
show_1 (seat n (x, y)) =
    if n == 1 && x == 1 && y == 1
    then some (record { value = doc (text "other"); ttl = some 300 })
    else none
show_1 (remain n) = if n == 1 then some (counted 5 none) else none
show_1 k = none

try_decrease-exact_example :
    let o = run server (try_decrease_remain_if_enough settings no_keys 1 2 60) [] show_1 in
    (o.result ≡ (true, 3)) × (value_of (o.db (remain 1)) ≡ some (num (pos 3)))
try_decrease-exact_example =
    try_decrease-exact server settings no_keys 1 show_1 5 none 2 60 refl (omega arith) (omega arith)

adjust_remain-exact_example :
    let o = run server (adjust_remain settings no_keys 1 (negsuc 6) 60) [] show_1 in
    (o.result ≡ pos 0) × (value_of (o.db (remain 1)) ≡ some (num (pos 0)))
adjust_remain-exact_example =
    adjust_remain-exact server settings no_keys 1 show_1 5 none (negsuc 6) 60 refl (omega arith)
      (omega arith)

abbrev theirs : CacheValue
theirs = doc (text "other")

other≢mine : theirs ≢ doc (text "mine")
other≢mine p = cc

try_hold-keeps_owner_example :
    owner
      (run server
        (try_hold_seats settings no_keys 1 ((1, 1) ∷ (1, 2) ∷ []) "mine" none true 0)
        (false ∷ true ∷ [])
        show_1).db
      1
      (1, 1)
    ≡ some (doc (text "other"))
try_hold-keeps_owner_example =
    try_hold-keeps_owner server settings no_keys 1 "mine" 1 (1, 1) (false ∷ true ∷ []) show_1
      (doc (text "other")) other≢mine refl ((1, 1) ∷ (1, 2) ∷ []) none true 0

release-keeps_owner_example :
    owner
      (run server (release_seats settings no_keys 1 ((1, 1) ∷ (1, 2) ∷ []) "mine") [] show_1).db
      1
      (1, 1)
    ≡ some (doc (text "other"))
release-keeps_owner_example =
    release-keeps_owner server settings no_keys 1 "mine" 1 (1, 1) [] show_1 (doc (text "other"))
      other≢mine refl ((1, 1) ∷ (1, 2) ∷ [])

holds_free_seat :
    (run server
      (try_hold_seats settings no_keys 1 ((1, 2) ∷ []) "mine" none true 0)
      []
      show_1).result
    ≡ held
unfolding try_hold_seats any_confirmed execute run apply answer scard Key-discrete ℕ_discrete after
    adjust_remain ◌-ℤ◌ eval sadd expire adjust_script ◌+ℤ◌ bump_hold_revision incr
holds_free_seat = refl

try_hold-owns_example :
    (owner
        (run server
          (try_hold_seats settings no_keys 1 ((1, 2) ∷ []) "mine" none true 0)
          []
          show_1).db
        1
        (1, 2)
      ≡ some (doc (text "mine")))
    × Unit {0}
try_hold-owns_example =
    try_hold-owns settings no_keys 1 "mine" true 0 server show_1 none ((1, 2) ∷ []) holds_free_seat

refuses_taken_seat :
    (run server
      (try_hold_seats settings no_keys 1 ((1, 1) ∷ (1, 2) ∷ []) "mine" none true 0)
      []
      show_1).result
    ≡ duplicate_seat
unfolding try_hold_seats any_confirmed execute run apply answer Key-discrete ℕ_discrete
    is_confirmed_text scard after release_seats
refuses_taken_seat = refl

try_hold-leaks_example :
    owner
      (run server
        (try_hold_seats settings no_keys 1 ((1, 1) ∷ (1, 2) ∷ []) "mine" none true 0)
        []
        show_1).db
      1
      (1, 2)
    ≡ some (doc (text "mine"))
try_hold-leaks_example =
    try_hold-leaks settings no_keys 1 "mine" true 0 server show_1 none (1, 1) ((1, 2) ∷ []) (1, 2)
      theirs refl (inl refl) refl (rw refuses_taken_seat (λ p. cc))
