-- ===== src/Booking.antt =====
-- What the write API (services/ticketing-was/sqs_client.py) and the worker (services/worker-svc/main.py)
-- share of a booking: the keys of the booking database, and their JSON documents. Both sides write the
-- same key formats, which are constructors here. Both use redis-py, which raises.
pub mod Results
pub mod Queue
pub mod Contract
mod Examples
use awstest.Prelude.{ℕ, String, Bool, ℕ_discrete, String-discrete}
use awstest.Prelude.Int.{ℤ}
use awstest.Redis.Commands.{Store, Value, Reply}
use awstest.Redis.Program.{Redis, Client, Faults, Outcome}
use awstest.Redis.Simulation.{run_store}
use awstest.Redis.Raising.{Raising}

pub data BookingType : Type 0 where
  concert theater : BookingType

pub data Key : Type 0 where
  result queued : String → Key
  enqueued done : BookingType → ℕ → Key

pub record Booked : Type 0 where
  pub booking_id : ℕ
  pub booking_code : String
  pub payment_id : ℕ
  pub remain_count_after : ℤ

-- The dict of a result: `ok` is true in the first.
pub data Verdict : Type 0 where
  booked : Booked → Verdict
  failed : String → String → Verdict

pub record Queued : Type 0 where
  pub booking_type : BookingType
  pub entity_id : ℕ
  pub seq : ℤ

-- `garbage` is a text that json.loads refuses.
pub data Doc : Type 0 where
  verdict_doc : Verdict → Doc
  queued_doc : Queued → Doc
  garbage : Doc

-- Nothing here is a set.
pub data Member : Type 0 where

unfoldable pub Key-discrete : Discrete Key
Key-discrete = hlevel (ℕ_discrete, String-discrete)

unfoldable pub Member-discrete : Discrete Member
Member-discrete = λ a b. elim a [ ]

abbrev pub Desk : Type 0 → Type 0
Desk = Raising Key Doc Member

abbrev pub DeskReply : Type 0
DeskReply = Reply Doc Member

abbrev pub DeskStore : Type 0
DeskStore = Store Key Doc Member

abbrev pub DeskServer : Type 1
DeskServer = Redis Doc Key-discrete Member-discrete

abbrev pub on_desk :
    {A : Type 0} → Client Key Doc Member A → Faults → DeskStore → Outcome DeskStore A
on_desk = run_store Key-discrete Member-discrete

pub record Settings : Type 0 where
  pub result_ttl : ℕ
  pub queued_ttl : ℕ
  pub counter_ttl : ℕ
