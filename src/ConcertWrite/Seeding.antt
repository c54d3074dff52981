-- ===== src/ConcertWrite/Seeding.antt =====
-- `_seed_remain_count_if_missing`: a counter that is missing, or that says 0 although nothing is sold or
-- held, is set from concert_shows.
use awstest.Prelude.{
  ℕ, zero, suc, Bool, true, false, Option, none, some, ltb, ◌==◌, ◌||◌, if◌then◌else◌,
}
use awstest.Prelude.Int.{ℤ, pos, pos_part}
use awstest.Redis.Commands.{num, doc, set_of}
use awstest.Redis.Program.{ret}
use awstest.Redis.Program as Program
use awstest.Cache.{remain, hold, confirmed, pending}
use awstest.Cache.Safe.{Cached, CacheValue}
use awstest.Cache.Safe as Safe
use awstest.SeatHold.Counter.{int_or_zero}
use awstest.ConcertWrite.Session.{Servers, Visit, pure, raise, ◌>>=◌, ◌>>◌, on_cache}

-- What MySQL gives: _get_tx_connection raises, SELECT raises, or the row's remain_count if there is one.
pub data Lookup : Type 0 where
  unreachable unreadable : Lookup
  row : Option ℤ → Lookup

pub data Counter : Type 0 where
  settled : ℕ → Counter
  missing stuck : Counter

-- `max(0, int(raw or 0))`, none if there is no value or int() raises
abbrev pub reading : Option CacheValue → Option ℕ
reading none = none
reading (some (num n)) = some (pos_part n)
reading (some (doc d)) = none
reading (some (set_of ms)) = none

unfoldable pub is_active : ℕ → Cached Bool
is_active sid = Program.◌>>=◌ (Safe.scard (hold sid)) λ holds.
    Program.◌>>=◌ (Safe.scard (confirmed sid)) λ sold.
      Program.◌>>=◌ (Safe.get (pending sid)) λ waiting. ret (
        ltb 0 (pos_part holds) || (ltb 0 (pos_part sold) || ltb 0 (pos_part (int_or_zero waiting))))

unfoldable pub judge : ℕ → Option ℕ → Cached Counter
unfolding is_active
judge sid none = ret missing
judge sid (some zero) =
    Program.◌>>=◌ (is_active sid) (λ active. ret (if active then settled 0 else stuck))
judge sid (some (suc n)) = ret (settled (suc n))

unfoldable pub read_counter : ℕ → Cached Counter
unfolding judge
read_counter sid = Program.◌>>=◌ (Safe.get (remain sid)) (λ raw. judge sid (reading raw))

abbrev pub seed_of : Lookup → Option ℕ
seed_of unreachable = none
seed_of unreadable = some 0
seed_of (row none) = some 0
seed_of (row (some n)) = some (pos_part n)

-- SET NX for a missing counter, SET for one that is stuck.
unfoldable pub write_seed : ℕ → Bool → ℕ → Cached (Unit {0})
write_seed sid repairs zero = ret tt
write_seed sid true (suc n) =
    Program.◌>>=◌ (Safe.set (remain sid) (num (pos (suc n)))) (λ done. ret tt)
write_seed sid false (suc n) =
    Program.◌>>=◌ (Safe.setnx (remain sid) (num (pos (suc n)))) (λ done. ret tt)

module _ (s : Servers) (sid : ℕ) where
  unfoldable pub seed_from : Bool → Option ℕ → Visit s ℕ
  unfolding ◌>>◌ write_seed
  seed_from repairs none = raise
  seed_from repairs (some n) = on_cache s (write_seed sid repairs n) >> pure n

  unfoldable pub seed : Lookup → Counter → Visit s ℕ
  unfolding seed_from
  seed lookup (settled n) = pure n
  seed lookup missing = seed_from false (seed_of lookup)
  seed lookup stuck = seed_from true (seed_of lookup)

  unfoldable pub seed_remain_count_if_missing : Lookup → Visit s ℕ
  unfolding ◌>>=◌ read_counter seed
  seed_remain_count_if_missing lookup =
      if sid == 0 then pure 0 else (on_cache s (read_counter sid) >>= seed lookup)
