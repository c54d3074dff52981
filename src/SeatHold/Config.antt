-- ===== src/SeatHold/Config.antt =====
-- The settings of services/ticketing-was/config.py that the seat holds read, and the answers of SCAN.
use awstest.Prelude.{ℕ, String, List}
use awstest.Cache.{Key}

pub record Config : Type 0 where
  pub seat_hold_ttl : ℕ
  pub soldout_ttl : ℕ
  pub confirmed_ttl : ℕ

-- What the server answers to `scan_iter`, in the order of the iteration: the seat keys of the show,
-- and the references of all hold documents. An answer that an exception cuts short is shorter.
pub record Scan : Type 0 where
  pub seat_keys : List Key
  pub meta_refs : List String
