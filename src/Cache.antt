-- ===== src/Cache.antt =====
-- services/ticketing-was/cache/redis_client.py: the keys and documents of the read cache, and
-- `_SafeRedisClient`, which answers a failed request by a default value and never raises. The key
-- formats of the source are constructors: each has its own prefix, and decimal ids between colons.
pub mod Safe
pub mod Sends
use awstest.Prelude.{
  ℕ, String, Bool, true, false, List, [], ◌∷◌, ◌==◌, ◌&&◌, ◌||◌, ℕ_discrete, String-discrete,
}

abbrev pub Seat : Type 0
Seat = ℕ × ℕ

abbrev pub same_seat : Seat → Seat → Bool
same_seat s t = s.0 == t.0 && s.1 == t.1

unfoldable pub has_seat : Seat → List Seat → Bool
has_seat s [] = false
has_seat s (t ∷ ts) = same_seat s t || has_seat s ts

pub data Key : Type 0 where
  seat : ℕ → Seat → Key
  remain reserved confirmed hold hold_rev snapshot pending bootstrap : ℕ → Key
  remain_dirty : Key
  hold_meta : String → Key

pub record HoldMeta : Type 0 where
  pub show_id : ℕ
  pub seats : List Seat
  pub ttl_sec : ℕ
  pub created_at_epoch_ms : ℕ

-- A seat key holds a booking reference or "CONFIRMED"; of a snapshot the list of confirmed seats is
-- what this code reads.
pub data Doc : Type 0 where
  text : String → Doc
  meta : HoldMeta → Doc
  confirmed_seats : List Seat → Doc

pub data Member : Type 0 where
  seat_member : Seat → Member
  show_member : ℕ → Member

unfoldable pub Key-discrete : Discrete Key
Key-discrete = hlevel (ℕ_discrete, String-discrete)

unfoldable pub Member-discrete : Discrete Member
Member-discrete = hlevel ℕ_discrete

unfoldable pub Seat-discrete : Discrete Seat
Seat-discrete = hlevel ℕ_discrete
