-- ===== src/Worker.antt =====
-- services/worker-svc/main.py, on the read cache, which the worker reaches by redis-py: its programs
-- raise. What it stores for the write API is in `Booking`.
pub mod Holds
pub mod Tables
pub mod Theater
pub mod Recounts
pub mod Closing
pub mod Concert
pub mod Messages
mod Examples
use awstest.Redis.Raising.{Raising}
use awstest.Cache.{Key, Doc, Member}

abbrev pub Work : Type 0 → Type 0
Work = Raising Key Doc Member
