-- ===== src/Booking/Queue.antt =====
-- services/ticketing-was/sqs_client.py, with the booking state enabled: `send_booking_message` and
-- `get_booking_status_dict`. Arguments: `valid` is the test that uuid.UUID accepts a text, `fresh` the
-- reference of uuid4, `delivery` what SQS does, `recovered` the booking that
-- `_db_lookup_concert_booking_by_ref` finds in the tables.
use awstest.Prelude.{ℕ, ◌-◌, String, Bool, false, Option, none, some, ◌==◌, if◌then◌else◌}
use awstest.Prelude.Int.{ℤ, pos, pos_part, ltb_ℤ, ◌-ℤ◌}
use awstest.Redis.Commands.{num, doc, value, integer, nil, get, set, incrby, expire}
use awstest.Redis.Raising.{ok, raise, command, or_else, ◌>>=◌, ◌>>◌}
use awstest.Booking.{
  BookingType, Key, result, queued, enqueued, done, Verdict, Queued, verdict_doc, queued_doc,
  garbage, Desk, DeskReply, Settings,
}

keep_counters : Settings → BookingType → ℕ → Desk (Unit {0})
unfolding command
keep_counters settings t entity_id =
    if settings.counter_ttl == 0
    then ok tt
    else or_else
        (do
          command (expire (enqueued t entity_id) settings.counter_ttl)
          command (expire (done t entity_id) settings.counter_ttl)
          ok tt)
        tt

abbrev integer_of : DeskReply → ℤ
integer_of (integer n) = n
integer_of _ = pos 0

-- The number in the queue, if counting works.
take_number : Settings → BookingType → ℕ → Desk (Option ℤ)
unfolding command keep_counters
take_number settings t entity_id =
    if entity_id == 0
    then ok none
    else or_else
        (do
          r ← command (incrby (enqueued t entity_id) (pos 1))
          keep_counters settings t entity_id
          ok (some (integer_of r)))
        none

-- `int(seq or 0)`
abbrev seq_or_0 : Option ℤ → ℤ
seq_or_0 none = pos 0
seq_or_0 (some n) = n

unfoldable mark_booking_queued : Settings → String → BookingType → ℕ → Option ℤ → Desk (Unit {0})
unfolding command
mark_booking_queued settings ref t entity_id seq =
    or_else
      (do
        let q : Queued = record { booking_type = t; entity_id = entity_id; seq = seq_or_0 seq }
        command (set (queued ref) (doc (queued_doc q)) false (some settings.queued_ttl))
        ok tt)
      tt

-- `booking_ref` if it is a UUID, else a fresh one
abbrev pub reference : (String → Bool) → String → Option String → String
reference valid fresh none = fresh
reference valid fresh (some ref) = if valid ref then ref else fresh

-- _resolve_queue_url raises, SQS refuses the message, or it accepts it.
pub data Delivery : Type 0 where
  unresolved refused accepted : Delivery

resolve : Delivery → Desk (Unit {0})
resolve unresolved = raise
resolve d = ok tt

deliver : Delivery → Desk (Unit {0})
deliver accepted = ok tt
deliver d = raise

unfoldable pub send_booking_message :
    Settings → (String → Bool) → String → Delivery → BookingType → ℕ → Option String → Desk String
unfolding take_number mark_booking_queued resolve deliver
send_booking_message settings valid fresh delivery t entity_id ref = do
  resolve delivery
  seq ← take_number settings t entity_id
  deliver delivery
  mark_booking_queued settings (reference valid fresh ref) t entity_id seq
  ok (reference valid fresh ref)

pub record QueueView : Type 0 where
  pub booking_type : BookingType
  pub entity_id : ℕ
  pub seq : ℤ
  pub done : ℤ
  pub enqueued : ℤ
  pub position : ℕ
  pub ahead : ℕ

pub data Status : Type 0 where
  invalid_ref unknown_or_expired processing_unnumbered : Status
  processing : QueueView → Status
  final : Verdict → Status

-- `json.loads(data)` of the result, if there is one
abbrev result_of : DeskReply → Option (Option Verdict)
result_of (value (doc (verdict_doc v))) = some (some v)
result_of (value (doc garbage)) = none
result_of _ = some none

unfoldable pub get_booking_result : String → Desk (Option Verdict)
unfolding command
get_booking_result ref = do
  raw ← command (get (result ref))
  elim (result_of raw) [ none ↦ raise | some v ↦ ok v ]

-- `int(raw or 0)`, which may raise
abbrev int_of : DeskReply → Option ℤ
int_of (value (num n)) = some n
int_of nil = some (pos 0)
int_of _ = none

counter : Key → Desk ℤ
unfolding command
counter k = do r ← command (get k); elim (int_of r) [ none ↦ raise | some n ↦ ok n ]

counters : Queued → Desk (ℤ × ℤ)
unfolding counter
counters q =
    if q.entity_id == 0
    then ok (pos 0, pos 0)
    else or_else
        (do
          d ← counter (done q.booking_type q.entity_id)
          e ← counter (enqueued q.booking_type q.entity_id)
          ok (d, e))
        (pos 0, pos 0)

abbrev view_of : Queued → ℤ × ℤ → QueueView
view_of q counts =
    let position = if ltb_ℤ (pos 0) q.seq then pos_part (q.seq -ℤ counts.0) else 0 in
    record {
      booking_type = q.booking_type;
      entity_id = q.entity_id;
      seq = q.seq;
      done = counts.0;
      enqueued = counts.1;
      position = position;
      ahead = position - 1;
    }

-- The answer that a queued mark gives, if there is one.
from_mark : DeskReply → Desk (Option Status)
unfolding counters
from_mark (value (doc (queued_doc q))) = do
  counts ← counters q
  ok (some (processing (view_of q counts)))
from_mark (value v) = ok (some processing_unnumbered)
from_mark _ = ok none

queue_status : String → Desk (Option Status)
unfolding command from_mark
queue_status ref = or_else (do raw ← command (get (queued ref)); from_mark raw) none

abbrev or_recovered : Option Verdict → Status
or_recovered none = unknown_or_expired
or_recovered (some v) = final v

status_without_result : Option Verdict → String → Desk Status
unfolding queue_status
status_without_result recovered ref = do
  q ← queue_status ref
  elim q [ none ↦ ok (or_recovered recovered) | some s ↦ ok s ]

unfoldable pub answer_from : Option Verdict → String → Option Verdict → Desk Status
unfolding status_without_result
answer_from recovered ref (some v) = ok (final v)
answer_from recovered ref none = status_without_result recovered ref

unfoldable pub get_booking_status : (String → Bool) → Option Verdict → String → Desk Status
unfolding get_booking_result answer_from
get_booking_status valid recovered ref =
    if valid ref
    then (do v ← get_booking_result ref; answer_from recovered ref v)
    else ok invalid_ref
