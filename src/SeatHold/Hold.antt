-- ===== src/SeatHold/Hold.antt =====
-- The holds: `try_hold_seats`, `release_seats`, the revision counter and the snapshots for the UI.
pub mod Releasing
pub mod Ownership
pub mod Placing
pub mod Outcomes
use awstest.Prelude.{
  ℕ, zero, suc, String, Bool, true, false, Option, none, some, List, [], ◌∷◌, ◌++◌, map, max,
  length, ◌==◌, if◌then◌else◌, str_eq,
}
use awstest.Prelude.Int.{ℤ, pos, ◌-ℤ◌}
use awstest.Redis.Commands.{doc, value, get, set, sadd, srem, delete, expire}
use awstest.Redis.Program.{ret, ◌>>=◌, ◌>>◌}
use awstest.Cache.{
  seat, hold, hold_rev, hold_meta, reserved, Seat, text, meta, Member, seat_member, show_member,
}
use awstest.Cache.Safe.{Cached, CacheReply, CacheCommand, CacheValue, execute}
use awstest.Cache.Safe as Safe
use awstest.SeatHold.Config.{Config, Scan}
use awstest.SeatHold.Counter.{adjust_remain, int_or_zero}
use awstest.SeatHold.Guard.{any_confirmed, reply_flag}

unfoldable pub get_hold_revision : ℕ → Cached ℤ
get_hold_revision show_id = do v ← Safe.get (hold_rev show_id); ret (int_or_zero v)

unfoldable pub bump_hold_revision : Config → ℕ → Cached ℤ
bump_hold_revision config show_id = do
  v ← Safe.incr (hold_rev show_id)
  if config.seat_hold_ttl == 0
      then ret v
      else do Safe.expire (hold_rev show_id) config.seat_hold_ttl; ret v

-- `str(v or "") == str(booking_ref)` of one reply
unfoldable pub holds : String → CacheReply → Bool
holds ref (value (doc (text s))) = str_eq s ref
holds ref _ = false

-- `for (r, c), v in zip(seats, existing)`: the commands, and the number of released seats
unfoldable pub release_commands : ℕ → String → List Seat → List CacheReply → List CacheCommand × ℕ
unfolding holds
release_commands show_id ref [] vs = ([], 0)
release_commands show_id ref (s ∷ ss) [] = ([], 0)
release_commands show_id ref (s ∷ ss) (v ∷ vs) =
    let (cs, n) = release_commands show_id ref ss vs in
    if holds ref v
    then (delete (seat show_id s) ∷ srem (hold show_id) (seat_member s) ∷ cs, suc n)
    else (cs, n)

pub restore : Config → Scan → ℕ → ℕ → Cached (Unit {0})
restore config scan show_id zero = ret tt
restore config scan show_id (suc n) = do adjust_remain config scan show_id (pos (suc n)) 0; ret tt

released : Config → Scan → ℕ → List CacheCommand × ℕ → Cached (Unit {0})
unfolding restore
released config scan show_id plan = do
  execute plan.0
  restore config scan show_id plan.1
  bump_hold_revision config show_id
  ret tt

unfoldable pub release_seats : Config → Scan → ℕ → List Seat → String → Cached (Unit {0})
unfolding release_commands released
release_seats config scan show_id [] ref = ret tt
release_seats config scan show_id (s ∷ ss) ref = do
  existing ← execute (map (λ s. get (seat show_id s)) (s ∷ ss))
  released config scan show_id (release_commands show_id ref (s ∷ ss) existing)

pub data HoldCode : Type 0 where
  held no_seats confirmed_seat duplicate_seat : HoldCode

-- The loop over `zip(seats, results)`: the seats held before the first refusal, and whether there is one.
unfoldable pub collect : List Seat → List CacheReply → List Seat × Bool
collect [] rs = ([], true)
collect (s ∷ ss) [] = ([], true)
collect (s ∷ ss) (r ∷ rs) =
    let (more, all) = collect ss rs in if reply_flag r then (s ∷ more, all) else ([], false)

-- `ttl_sec`, at least 10 if it is positive
abbrev pub hold_ttl : ℕ → ℕ
hold_ttl ttl = if ttl == 0 then 0 else max 10 ttl

abbrev pub expiry : ℕ → Option ℕ
expiry ttl = if ttl == 0 then none else some ttl

abbrev pub hold_commands : ℕ → String → ℕ → List Seat → List CacheCommand
hold_commands show_id ref ttl = map (λ s. set (seat show_id s) (doc (text ref)) true (expiry ttl))

abbrev pub record_commands : ℕ → String → ℕ → ℕ → List Seat → List CacheCommand
record_commands show_id ref ttl now_ms seats =
    map (λ s. sadd (hold show_id) (seat_member s)) seats
    ++ (if ttl == 0 then [] else expire (hold show_id) ttl ∷ [])
    ++ set (hold_meta ref)
        (doc (
          meta (record {
            show_id = show_id;
            seats = seats;
            ttl_sec = ttl;
            created_at_epoch_ms = now_ms;
          })))
        false (expiry ttl)
      ∷ []

decrease : Config → Scan → ℕ → Bool → ℕ → ℕ → Cached ℤ
decrease config scan show_id true ttl n = adjust_remain config scan show_id (pos 0 -ℤ pos n) ttl
decrease config scan show_id false ttl n = ret (pos 0)

pub finish : Config → Scan → ℕ → String → ℕ → Bool → ℕ → List Seat → Cached HoldCode
unfolding decrease
finish config scan show_id ref ttl adjusts now_ms seats = do
  execute (record_commands show_id ref ttl now_ms seats)
  decrease config scan show_id adjusts ttl (length seats)
  bump_hold_revision config show_id
  ret held

placed : Config → Scan → ℕ → String → ℕ → Bool → ℕ → List Seat × Bool → Cached HoldCode
unfolding finish
placed config scan show_id ref ttl adjusts now_ms outcome =
    if outcome.1
    then finish config scan show_id ref ttl adjusts now_ms outcome.0
    else do release_seats config scan show_id outcome.0 ref; ret duplicate_seat

place : Config → Scan → ℕ → List Seat → String → ℕ → Bool → ℕ → Cached HoldCode
unfolding placed collect
place config scan show_id seats ref ttl adjusts now_ms = do
  results ← execute (hold_commands show_id ref ttl seats)
  placed config scan show_id ref ttl adjusts now_ms (collect seats results)

unfoldable pub try_hold_seats :
    Config → Scan → ℕ → List Seat → String → Option ℕ → Bool → ℕ → Cached HoldCode
unfolding place
try_hold_seats config scan show_id [] ref ttl_sec adjusts now_ms = ret no_seats
try_hold_seats config scan show_id (s ∷ ss) ref ttl_sec adjusts now_ms = do
  guarded ← any_confirmed show_id (s ∷ ss)
  if guarded
      then ret confirmed_seat
      else place config scan show_id (s ∷ ss) ref
          (hold_ttl (elim ttl_sec [ none ↦ config.seat_hold_ttl | some t ↦ t ])) adjusts now_ms

seats_of : List Member → List Seat
seats_of [] = []
seats_of (seat_member s ∷ ms) = s ∷ seats_of ms
seats_of (show_member n ∷ ms) = seats_of ms

unfoldable pub hold_seats_snapshot : ℕ → Cached (List Seat)
unfolding seats_of
hold_seats_snapshot show_id = do ms ← Safe.smembers (hold show_id); ret (seats_of ms)

unfoldable pub hold_count : ℕ → Cached ℤ
hold_count show_id = Safe.scard (hold show_id)

unfoldable pub reserved_seats_snapshot : ℕ → Cached (List Seat)
unfolding seats_of
reserved_seats_snapshot show_id = do ms ← Safe.smembers (reserved show_id); ret (seats_of ms)

unfoldable pub reserved_count : ℕ → Cached ℤ
reserved_count show_id = Safe.scard (reserved show_id)
