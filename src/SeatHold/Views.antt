-- ===== src/SeatHold/Views.antt =====
-- What the proofs observe of the cache: the owner of a seat, the remain counter.
use awstest.Prelude.{ℕ, Option}
use awstest.Redis.Commands.{Store}
use awstest.Redis.Program.{Redis, Faults, Outcome}
use awstest.Redis.Simulation.{run_store}
use awstest.Redis.Spares.{value_of}
use awstest.Cache.{Key, seat, Doc, Member, Seat, Key-discrete, Member-discrete}
use awstest.Cache.Safe.{Cached, CacheValue}

abbrev pub CacheStore : Type 0
CacheStore = Store Key Doc Member

abbrev pub Server : Type 1
Server = Redis Doc Key-discrete Member-discrete

abbrev pub on_store : {A : Type 0} → Cached A → Faults → CacheStore → Outcome CacheStore A
on_store = run_store Key-discrete Member-discrete

abbrev pub value_at : CacheStore → Key → Option CacheValue
value_at s k = value_of (s k)

-- Who holds the seat: a booking reference, "CONFIRMED", or nobody.
abbrev pub owner : CacheStore → ℕ → Seat → Option CacheValue
owner s show_id x = value_at s (seat show_id x)
