-- ===== src/SeatHold/Guard.antt =====
-- The confirmed seats: `add_confirmed_seats`, `remove_confirmed_seats` and `any_confirmed`.
pub mod Sparing
use awstest.Prelude.{
  ℕ, String, Bool, true, false, Option, none, some, List, [], ◌∷◌, ◌++◌, map, leb, ◌==◌, ◌&&◌, ◌||◌,
  if◌then◌else◌,
}
use awstest.Prelude.Text.{is_upper}
use awstest.Prelude.Int.{pos_part}
use awstest.Redis.Commands.{
  num, doc, set_of, value, flag, contains, get, sadd, srem, sismember, expire,
}
use awstest.Redis.Program.{ret, ◌>>=◌, ◌>>◌}
use awstest.Cache.{
  seat, confirmed, snapshot, Seat, text, meta, confirmed_seats, seat_member, Seat-discrete,
}
use awstest.Cache.Safe.{Cached, CacheReply, CacheValue, execute}
use awstest.Cache.Safe as Safe
use awstest.SeatHold.Config.{Config}

-- `str(v or "").strip().upper() == "CONFIRMED"`
unfoldable pub is_confirmed_text : String → Bool
unfolding is_upper
is_confirmed_text s = is_upper s "CONFIRMED"

abbrev pub is_confirmed_reply : CacheReply → Bool
is_confirmed_reply (value (doc (text s))) = is_confirmed_text s
is_confirmed_reply _ = false

abbrev pub reply_flag : CacheReply → Bool
reply_flag (flag b) = b
reply_flag _ = false

unfoldable pub any : (CacheReply → Bool) → List CacheReply → Bool
any test [] = false
any test (r ∷ rs) = test r || any test rs

-- `confirmed_seats` of the snapshot, if there is one
abbrev pub snapshot_seats : Option CacheValue → List Seat
snapshot_seats none = []
snapshot_seats (some v) = elim v [
  | num n ↦ []
  | set_of ms ↦ []
  | doc d ↦ elim d [ text s ↦ [] | meta m ↦ [] | confirmed_seats cs ↦ cs ]
]

any_in : List Seat → List Seat → Bool
any_in [] cs = false
any_in (s ∷ ss) cs = contains Seat-discrete s cs || any_in ss cs

from_snapshot : ℕ → List Seat → Cached Bool
from_snapshot show_id seats = do
  raw ← Safe.get (snapshot show_id)
  ret (any_in seats (snapshot_seats raw))

from_confirmed_set : ℕ → List Seat → Cached Bool
unfolding from_snapshot any
from_confirmed_set show_id seats = do
  n ← Safe.scard (confirmed show_id)
  if leb (pos_part n) 0 then ret false else do
    res ← execute (map (λ s. sismember (confirmed show_id) (seat_member s)) seats)
    if any reply_flag res then ret true else from_snapshot show_id seats

unfoldable pub any_confirmed : ℕ → List Seat → Cached Bool
unfolding from_confirmed_set any_in any
any_confirmed show_id [] = ret false
any_confirmed show_id (s ∷ ss) = do
  vals ← execute (map (λ s. get (seat show_id s)) (s ∷ ss))
  if any is_confirmed_reply vals then ret true else from_confirmed_set show_id (s ∷ ss)

unfoldable pub add_confirmed_seats : Config → ℕ → List Seat → Cached (Unit {0})
add_confirmed_seats config show_id [] = ret tt
add_confirmed_seats config show_id (s ∷ ss) = do
  execute (
      map (λ s. sadd (confirmed show_id) (seat_member s)) (s ∷ ss)
      ++ (if config.confirmed_ttl == 0
          then []
          else expire (confirmed show_id) config.confirmed_ttl ∷ []))
  ret tt

unfoldable pub remove_confirmed_seats : ℕ → List Seat → Cached (Unit {0})
remove_confirmed_seats show_id [] = ret tt
remove_confirmed_seats show_id (s ∷ ss) = do
  execute (map (λ s. srem (confirmed show_id) (seat_member s)) (s ∷ ss))
  ret tt
