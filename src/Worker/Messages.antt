-- ===== src/Worker/Messages.antt =====
-- `_handle_one_sqs_message` and `_process_received_batch` (one message after the other). What the two
-- booking functions do is an argument: whether they return, and the world after them.
pub mod Redelivery
use awstest.Prelude.{
  String, Bool, true, false, Option, none, some, List, [], ◌∷◌, ◌++◌, str_eq, if◌then◌else◌,
}
use awstest.Redis.Commands.{nil, value, integer, flag, items, wrong_type, get}
use awstest.Redis.Program.{Faults, Outcome, run}
use awstest.Redis.Raising.{command}
use awstest.Booking.{Key, result, DeskReply, Desk, DeskServer}

-- The body, as far as the handler reads it; `booking_ref` is none if it is no text.
pub record Body : Type 0 where
  pub booking_ref : Option String
  pub is_concert : Bool

-- `receipt` is none if it is missing or empty, `body` if json.loads refuses it. A body that is JSON
-- and no object is left out.
pub record Message : Type 0 where
  pub receipt : Option String
  pub body : Option Body

-- The booking database with the failures to come, the receipts that were deleted, and all else.
pub record World (D W : Type 0) : Type 0 where
  pub desk : D
  pub faults : Faults
  pub deleted : List String
  pub rest : W

pub record Workers (D W : Type 0) : Type 0 where
  pub book_concert : Body → World D W → Bool × World D W
  pub book_theater : Body → World D W → Bool × World D W
  -- whether SQS accepts the deletion
  pub accepts : String → Bool

-- An exception is no reply; a missing key is false.
abbrev is_there : Option DeskReply → Bool
is_there none = false
is_there (some nil) = false
is_there (some r) = true

module _ (r : DeskServer) {W : Type 0} (workers : Workers r.Db W) where
  abbrev pub State : Type 0
  State = World r.Db W

  look_up : String → State → Bool × State
  unfolding command
  look_up ref w =
      let o = run r (command (get (result ref))) w.faults w.desk in
      (is_there o.result, record w { desk = o.db; faults = o.faults })

  -- `isinstance(ref, str) and ref`
  has_result : Option String → State → Bool × State
  unfolding look_up
  has_result none w = (false, w)
  has_result (some ref) w = if str_eq ref "" then (false, w) else look_up ref w

  book : Body → State → Bool × State
  book b w = if b.is_concert then workers.book_concert b w else workers.book_theater b w

  unless_done : Body → Bool × State → Bool × State
  unfolding book
  unless_done b (true, w) = (true, w)
  unless_done b (false, w) = book b w

  handle_body : Option Body → State → Bool × State
  unfolding has_result unless_done
  handle_body none w = (false, w)
  handle_body (some b) w = unless_done b (has_result b.booking_ref w)

  unfoldable pub handle_one_sqs_message : Message → State → Bool × State
  unfolding handle_body
  handle_one_sqs_message m w = elim m.receipt [
    | none ↦ (false, w)
    | some receipt ↦ handle_body m.body w
  ]

  unfoldable pub ack_if_ok : Message → Bool × State → State
  ack_if_ok m (false, w) = w
  ack_if_ok m (true, w) = elim m.receipt [
    | none ↦ w
    | some receipt ↦
        if workers.accepts receipt then record w { deleted = receipt ∷ w.deleted } else w
  ]

  unfoldable pub process_received_batch : List Message → State → State
  unfolding handle_one_sqs_message ack_if_ok
  process_received_batch [] w = w
  process_received_batch (m ∷ ms) w =
      process_received_batch ms (ack_if_ok m (handle_one_sqs_message m w))
