-- ===== src/ConcertWrite.antt =====
-- services/ticketing-was/concert/concert_write.py: `commit_concert_booking` with
-- `_seed_remain_count_if_missing`. A visit uses three databases: the waiting room and the booking
-- database, by redis-py, which raises, and the read cache, whose client does not. The except branch for
-- an exception of the hold (line 433) is left out: no program of the read cache raises.
pub mod Session
pub mod Seeding
pub mod Keeping
pub mod Ownership
pub mod Admission
pub mod Steady
pub mod Placing
pub mod Holding
mod Examples
use awstest.Prelude.{
  ℕ, String, Bool, true, false, Option, none, some, List, [], ◌∷◌, length, ◌==◌, ◌||◌, str_eq,
  if◌then◌else◌,
}
use awstest.Prelude.Int.{pos}
use awstest.Cache.{Seat, has_seat, snapshot}
use awstest.Cache.Safe as Safe
use awstest.SeatHold.Config.{Config, Scan}
use awstest.SeatHold.Counter.{adjust_remain, try_decrease_remain_if_enough}
use awstest.SeatHold.Hold.{
  HoldCode, held, no_seats, confirmed_seat, duplicate_seat, try_hold_seats, release_seats,
}
use awstest.Booking as Booking
use awstest.Booking.Queue.{Delivery, send_booking_message}
use awstest.WaitingRoom as WaitingRoom
use awstest.WaitingRoom.Tickets.{
  Moment, Status, invalid_ref, unknown_or_expired, admitted, processing, status, verify_permit,
}
use awstest.ConcertWrite.Session.{
  Servers, Visit, pure, raise, ◌>>=◌, ◌>>◌, attempt_or, or_undo, on_room, on_desk, on_cache,
}
use awstest.ConcertWrite.Seeding.{Lookup, seed_remain_count_if_missing}

-- The body: `seats` are what _parse_seat_key gives for each item, the texts are stripped.
pub record Submission : Type 0 where
  pub user_id : ℕ
  pub show_id : ℕ
  pub seats : List (Option Seat)
  pub skip_hold : Bool
  pub permit_token : String
  pub queue_ref : String

-- The settings, and what uuid4, the clock, SCAN, MySQL and SQS give.
pub record Env : Type 0 where
  pub room : WaitingRoom.Settings
  pub desk : Booking.Settings
  pub cache : Config
  pub scan : Scan
  pub lookup : Lookup
  pub moment : Moment
  pub booking_ref : String
  pub now_ms : ℕ
  pub valid : String → Bool
  pub fresh : String
  pub delivery : Delivery

pub data Answer : Type 0 where
  bad_request without_seats bad_seat_key waiting_room_required : Answer
  sold_out : ℕ → Answer
  refused : HoldCode → Answer
  queued : String → Answer

abbrev prepended : Seat → Option (List Seat) → Option (List Seat)
prepended s none = none
prepended s (some ss) = some (s ∷ ss)

-- A seat that comes again is passed over, and one that does not parse spoils all.
unfoldable pub parse_seats : List Seat → List (Option Seat) → Option (List Seat)
parse_seats seen [] = some []
parse_seats seen (none ∷ xs) = none
parse_seats seen (some s ∷ xs) =
    let without = parse_seats seen xs in
    let more = parse_seats (s ∷ seen) xs in if has_seat s seen then without else prepended s more

-- `DUPLICATE_SEAT` for `CONFIRMED_SEAT`, too
abbrev pub refusal : HoldCode → HoldCode
refusal confirmed_seat = duplicate_seat
refusal held = held
refusal no_seats = no_seats
refusal duplicate_seat = duplicate_seat

module _ (s : Servers) (env : Env) (q : Submission) where
  unfoldable pub verify : String → Visit s Bool
  verify token = on_room s (verify_permit token WaitingRoom.concert q.show_id q.user_id)

  unfoldable pub renewed : Status → Visit s Bool
  unfolding verify
  renewed (admitted token p) = if str_eq token "" then raise else verify token
  renewed invalid_ref = raise
  renewed unknown_or_expired = raise
  renewed (processing p) = raise

  -- `status` of the queue reference may issue a new permit.
  unfoldable pub renew : Visit s Bool
  unfolding ◌>>=◌ attempt_or renewed
  renew = attempt_or (on_room s (status env.room q.queue_ref env.moment) >>= renewed) false

  unfoldable pub permitted : Visit s Bool
  unfolding ◌>>=◌ verify renew
  permitted = do
    ok ← verify q.permit_token
    if ok then pure true else if str_eq q.queue_ref "" then pure false else renew

  -- What the hold answers, if the visit ends with it.
  unfoldable pub after_hold : ℕ → HoldCode → Visit s (Option Answer)
  unfolding ◌>>◌
  after_hold n held = pure none
  after_hold n code =
      on_cache s (adjust_remain env.cache env.scan q.show_id (pos n) 0)
      >> pure (some (refused (refusal code)))

  unfoldable pub hold : List Seat → Visit s (Option Answer)
  unfolding ◌>>=◌ after_hold
  hold seats =
      on_cache s
        (try_hold_seats env.cache env.scan q.show_id seats env.booking_ref none false env.now_ms)
      >>= after_hold (length seats)

  unfoldable pub hold_if_enough : List Seat → Bool × ℕ → Visit s (Option Answer)
  unfolding hold
  hold_if_enough seats (true, left) = hold seats
  hold_if_enough seats (false, left) = pure (some (sold_out left))

  unfoldable pub place : List Seat → Visit s (Option Answer)
  unfolding ◌>>=◌ hold_if_enough
  place seats =
      if q.skip_hold
      then pure none
      else (on_cache s (try_decrease_remain_if_enough env.cache env.scan q.show_id (length seats) 0)
          >>= hold_if_enough seats)

  -- The hold is undone, if there is one.
  unfoldable pub undo : List Seat → Visit s (Unit {0})
  undo seats =
      if q.skip_hold
      then pure tt
      else on_cache s (release_seats env.cache env.scan q.show_id seats env.booking_ref)

  unfoldable pub enqueue : List Seat → Visit s Answer
  unfolding ◌>>=◌ ◌>>◌ or_undo undo
  enqueue seats =
      on_cache s (Safe.delete (snapshot q.show_id))
      >> (or_undo
            (on_desk s (
              send_booking_message env.desk env.valid env.fresh env.delivery Booking.concert
                q.show_id (some env.booking_ref)))
            (undo seats)
          >>= λ ref. pure (queued ref))

  unfoldable pub unless_placed : List Seat → Option Answer → Visit s Answer
  unfolding enqueue
  unless_placed seats none = enqueue seats
  unless_placed seats (some answer) = pure answer

  unfoldable pub if_permitted : List Seat → Bool → Visit s Answer
  unfolding ◌>>=◌ place unless_placed
  if_permitted seats true = place seats >>= unless_placed seats
  if_permitted seats false = pure waiting_room_required

  unfoldable pub commit_seats : Option (List Seat) → Visit s Answer
  unfolding ◌>>=◌ ◌>>◌ permitted if_permitted seed_remain_count_if_missing
  commit_seats none = pure bad_seat_key
  commit_seats (some []) = pure without_seats
  commit_seats (some (x ∷ xs)) =
      seed_remain_count_if_missing s q.show_id env.lookup >> (permitted >>= if_permitted (x ∷ xs))

  unfoldable pub commit_concert_booking : Visit s Answer
  unfolding commit_seats parse_seats
  commit_concert_booking =
      if q.user_id == 0 || q.show_id == 0 then pure bad_request else elim q.seats [
        | [] ↦ pure without_seats
        | x ∷ xs ↦ commit_seats (parse_seats [] (x ∷ xs))
      ]
