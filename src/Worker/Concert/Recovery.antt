-- ===== src/Worker/Concert/Recovery.antt =====
-- A reference that the tables have already: the redelivery of a message in process_concert_booking, and
-- `_concert_poll_ok_from_db_if_complete`.
use awstest.Prelude.{
  ℕ, String, Bool, true, false, Option, none, some, List, [], ◌∷◌, ◌==◌, ◌&&◌, if◌then◌else◌,
}
use awstest.Redis.Commands.{get}
use awstest.Redis.Raising as Raising
use awstest.Redis.Raising.{command}
use awstest.Cache.{Seat}
use awstest.Booking.{result, booked, failed, DeskServer, Desk}
use awstest.Booking.Results.{is_ok}
use awstest.SeatHold.Views.{Server}
use awstest.Worker.Holds.{seats_of}
use awstest.Worker.Recounts.{ConcertShow}
use awstest.Worker.Concert.Tables.{
  ConcertBooking, same_seats, find_ref, seats_of_booking, payment_of,
}
use awstest.Worker.Concert.Job.{
  pure, ◌>>=◌, ◌>>◌, catch, select, connect, commit, rollback, on_desk, on_cache,
}
use awstest.Worker.Concert.Effects.{
  Request, Env, Here, store, fail, finalize, confirm, get_remain, concert_delete_read_caches,
}

-- `str(b.get("booking_code") or "")`
abbrev pub code_or_empty : Option String → String
code_or_empty none = ""
code_or_empty (some code) = code

-- `raw_prev and json.loads(raw_prev).get("ok") is True`; an exception of GET goes on.
unfoldable pub has_ok_result : String → Desk Bool
unfolding command
has_ok_result ref = Raising.◌>>=◌ (command (get (result ref))) (λ raw. Raising.ok (is_ok raw))

module _ (r : DeskServer) (c : Server) (env : Env) (q : Request) where
  -- The result that the tables have, with the counter as it is now.
  unfoldable pub store_found : ℕ → String → ℕ → Here r c (Unit {0})
  unfolding ◌>>=◌ get_remain store
  store_found booking_id code payment_id = do
    n ← get_remain r c env q
    store r c env q (
        booked (record {
          booking_id = booking_id;
          booking_code = code;
          payment_id = payment_id;
          remain_count_after = n;
        }))

  -- A try statement, whose exceptions are passed over: whether the result was OK already.
  unfoldable pub known_ok : Here r c (Unit {0}) → Here r c Bool
  unfolding ◌>>=◌ ◌>>◌ catch on_desk has_ok_result
  known_ok ends =
      catch
        (do
          kept ← on_desk r c (has_ok_result q.booking_ref)
          elim kept [ true ↦ ends >> pure true | false ↦ pure false ])
        (λ e. pure false)

  -- Every seat is there: the booking is complete.
  unfoldable pub complete : ℕ → ConcertBooking → Here r c (Unit {0})
  unfolding ◌>>=◌ ◌>>◌ select commit known_ok store_found confirm payment_of
  complete concert_id b = do
    payment_id ← select (λ t. payment_of b.booking_id t.payments)
    commit
    known ← known_ok (confirm r c env q concert_id)
    elim known [
      | true ↦ pure tt
      | false ↦
          store_found b.booking_id (code_or_empty b.booking_code) payment_id
          >> confirm r c env q concert_id
    ]

  unfoldable pub mismatch : Here r c (Unit {0})
  unfolding ◌>>◌ rollback fail
  mismatch = rollback >> fail r c env q (failed "ERROR" "idempotent_seat_mismatch")

  -- The seats that the booking has, and what is left to do if it has none.
  unfoldable pub resume : ℕ → ConcertBooking → List Seat → Here r c (Unit {0}) → Here r c (Unit {0})
  unfolding complete mismatch same_seats
  resume concert_id b have insert_rest =
      if same_seats have (seats_of q.seats)
      then complete concert_id b
      else elim have [ [] ↦ insert_rest | x ∷ xs ↦ mismatch ]

  unfoldable pub end_found : ConcertShow → Here r c (Unit {0})
  unfolding ◌>>◌ finalize
  end_found s =
      finalize r c env q false >> on_cache r c (concert_delete_read_caches s.concert_id q.show_id)

  -- Where the new connection finds the whole booking, the result is OK.
  unfoldable pub found_complete : ConcertBooking → ConcertShow → Here r c Bool
  unfolding ◌>>=◌ ◌>>◌ select known_ok store_found end_found seats_of_booking payment_of same_seats
  found_complete b s = do
    have ← select (λ t. seats_of_booking b.booking_id q.show_id t.active)
    elim (same_seats have (seats_of q.seats)) [
      | false ↦ pure false
      | true ↦ (do
        payment_id ← select (λ t. payment_of b.booking_id t.payments)
        known ← known_ok (end_found s)
        elim known [
          | true ↦ pure true
          | false ↦
              store_found b.booking_id (code_or_empty b.booking_code) payment_id
              >> end_found s
              >> pure true
        ])
    ]

  -- The booking of the user and the show, joined with the show.
  unfoldable pub owned :
      Option ConcertBooking → Option ConcertShow → Option (ConcertBooking × ConcertShow)
  owned (some b) (some s) =
      if b.user_id == q.user_id && b.show_id == q.show_id then some (b, s) else none
  owned _ _ = none

  unfoldable pub poll_ok_from_db_if_complete : Here r c Bool
  unfolding ◌>>=◌ ◌>>◌ catch connect select find_ref owned found_complete
  poll_ok_from_db_if_complete =
      connect
      >> catch
          (do
            found ← select (λ t. owned (find_ref q.booking_ref t.bookings) (t.shows q.show_id))
            elim found [ none ↦ pure false | some (b, s) ↦ found_complete b s ])
          (λ e. pure false)
