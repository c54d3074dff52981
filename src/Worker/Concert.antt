-- ===== src/Worker/Concert.antt =====
-- `process_concert_booking`. `new` has, for each round of the loop, what AUTO_INCREMENT assigns and the
-- codes that are drawn; `rounds` has the number of rounds as fuel, since the source's loop need not end.
pub mod Tables
pub mod Job
pub mod Effects
pub mod Recovery
pub mod Triples
pub mod Quiet
pub mod Frames
pub mod Finishing
pub mod Once
pub mod Lookups
pub mod Again
pub mod Rounds
pub mod Calm
pub mod Settling
pub mod Storing
pub mod Places
pub mod Attempts
pub mod Codes
pub mod Known
pub mod Redelivery
pub mod Ending
pub mod Sales
pub mod Taken
pub mod Endless
pub mod Deadlocks
mod Examples
use awstest.Prelude.{
  ℕ, zero, suc, String, Bool, true, false, Option, none, some, List, [], ◌∷◌, ltb, ◌==◌, ◌&&◌, ◌||◌,
  str_eq, length, if◌then◌else◌,
}
use awstest.Prelude.Int.{ℤ}
use awstest.Cache.{Seat}
use awstest.Booking.{Booked, booked, failed, DeskServer}
use awstest.SeatHold.Views.{Server}
use awstest.Worker.Holds.{seats_of}
use awstest.Worker.Recounts.{ConcertShow}
use awstest.Worker.Concert.Tables.{
  ConcertBooking, ConcertTables, Raised, deadlock, operational, duplicate_ref, duplicate_key,
  foreign_key, exception, find_ref, seats_of_booking, insert_concert_booking, update_concert_code,
  insert_concert_seats, insert_concert_payment,
}
use awstest.Worker.Concert.Job.{
  Task, pure, throw, ◌>>=◌, ◌>>◌, catch, select, write, connect, commit, rollback,
}
use awstest.Worker.Concert.Effects.{
  Request, Env, Here, store, refuse, fail, confirm, get_remain, close_if_soldout,
}
use awstest.Worker.Concert.Recovery.{code_or_empty, resume, poll_ok_from_db_if_complete}

pub record Assigned : Type 0 where
  pub booking_id : ℕ
  pub payment_id : ℕ
  pub codes : List String

-- A seat beyond the rows or the columns of the hall.
unfoldable pub any_outside : ConcertShow → List Seat → Bool
any_outside s [] = false
any_outside s (x ∷ xs) = (ltb s.seat_rows x.0 || ltb s.seat_cols x.1) || any_outside s xs

abbrev pub is_integrity : Raised → Bool
is_integrity duplicate_ref = true
is_integrity duplicate_key = true
is_integrity foreign_key = true
is_integrity deadlock = false
is_integrity operational = false
is_integrity exception = false

unfoldable pub choose_code : {D C : Type 0} → ℕ → List String → Task D C String
unfolding ◌>>◌ catch write update_concert_code
choose_code b [] = pure ""
choose_code b (code ∷ codes) =
    catch (write (update_concert_code b code) >> pure code)
      (λ e. if is_integrity e then choose_code b codes else throw e)

-- A reference that the tables have is false; any other error goes on.
unless_duplicate : {D C : Type 0} → Raised → Task D C Bool
unless_duplicate duplicate_ref = pure false
unless_duplicate deadlock = throw deadlock
unless_duplicate operational = throw operational
unless_duplicate duplicate_key = throw duplicate_key
unless_duplicate foreign_key = throw foreign_key
unless_duplicate exception = throw exception

abbrev pub booking_row : Request → ℕ → ConcertBooking
booking_row q booking_id = record {
  booking_id = booking_id;
  booking_code = none;
  user_id = q.user_id;
  show_id = q.show_id;
  reg_count = length (seats_of q.seats);
  cancelled = false;
  sqs_booking_ref = some q.booking_ref;
}

module _ (r : DeskServer) (c : Server) (env : Env) (q : Request) where
  unfoldable pub insert_booking : ℕ → Here r c Bool
  unfolding ◌>>◌ catch write insert_concert_booking unless_duplicate
  insert_booking booking_id =
      catch (write (insert_concert_booking (booking_row q booking_id)) >> pure true)
        unless_duplicate

  pub ensure_code : ℕ → List String → String → Here r c String
  unfolding choose_code
  ensure_code booking_id codes code =
      if str_eq code "" then choose_code booking_id codes else pure code

  -- After COMMIT.
  pub report : ConcertShow → Booked → Here r c (Unit {0})
  unfolding ◌>>◌ store confirm close_if_soldout
  report s b =
      store r c env q (booked b)
      >> confirm r c env q s.concert_id
      >> close_if_soldout r c env q b.remain_count_after

  unfoldable pub finish : ConcertShow → Assigned → ℕ → String → Here r c (Unit {0})
  unfolding ◌>>=◌ ◌>>◌ write ensure_code insert_concert_seats insert_concert_payment get_remain
      commit report
  finish s new booking_id code = do
    code' ← ensure_code booking_id new.codes code
    write (insert_concert_seats booking_id q.show_id (seats_of q.seats))
    write (insert_concert_payment new.payment_id booking_id)
    n ← get_remain r c env q
    commit
    report s (record {
      booking_id = booking_id;
      booking_code = code';
      payment_id = new.payment_id;
      remain_count_after = n;
    })

  -- The row with the reference must be this user's, of this show.
  pub check_owner : Option ConcertBooking → Here r c ConcertBooking
  check_owner none = throw duplicate_ref
  check_owner (some b) =
      if b.user_id == q.user_id && b.show_id == q.show_id then pure b else throw duplicate_ref

  unfoldable pub resume_found : ConcertShow → Assigned → ConcertBooking → Here r c (Unit {0})
  unfolding ◌>>=◌ select seats_of_booking resume finish
  resume_found s new b = do
    have ← select (λ t. seats_of_booking b.booking_id q.show_id t.active)
    resume r c env q s.concert_id b have (finish s new b.booking_id (code_or_empty b.booking_code))

  unfoldable pub recover : ConcertShow → Assigned → Here r c (Unit {0})
  unfolding ◌>>=◌ ◌>>◌ rollback select find_ref check_owner resume_found
  recover s new = do
    rollback
    found ← select (λ t. find_ref q.booking_ref t.bookings)
    b ← check_owner found
    resume_found s new b

  unfoldable pub book : ConcertShow → Assigned → Here r c (Unit {0})
  unfolding ◌>>=◌ insert_booking finish recover
  book s new = do
    inserted ← insert_booking new.booking_id
    elim inserted [ true ↦ finish s new new.booking_id "" | false ↦ recover s new ]

  unfoldable pub with_show : Assigned → Option ConcertShow → Here r c (Unit {0})
  unfolding refuse any_outside book
  with_show new none = refuse r c env q "NOT_FOUND"
  with_show new (some s) =
      if any_outside s (seats_of q.seats) then refuse r c env q "INVALID_SEAT" else book s new

  unfoldable pub attempt_booking : Assigned → Here r c (Unit {0})
  unfolding ◌>>=◌ select with_show
  attempt_booking new = do row ← select (λ t. t.shows q.show_id); with_show new row

  -- IntegrityError: no branch of it returns.
  unfoldable pub after_integrity : Raised → Here r c (Unit {0})
  unfolding ◌>>=◌ poll_ok_from_db_if_complete fail
  after_integrity foreign_key = fail r c env q (failed "FK_VIOLATION" (env.message foreign_key))
  after_integrity e = do
    complete ← poll_ok_from_db_if_complete r c env q
    elim complete [ true ↦ pure tt | false ↦ fail r c env q (failed "DUPLICATE_SEAT" "") ]

  pub give_up : Raised → Here r c (Unit {0})
  unfolding fail
  give_up e = fail r c env q (failed "ERROR" (env.message e))

  -- The except branches: whether the function returns.
  unfoldable pub after_error : ℕ → Raised → Here r c Bool
  unfolding ◌>>◌ rollback give_up after_integrity
  after_error attempt deadlock =
      rollback >> (if ltb attempt env.tries then pure false else give_up deadlock >> pure true)
  after_error attempt operational = rollback >> give_up operational >> pure true
  after_error attempt duplicate_ref = rollback >> after_integrity duplicate_ref >> pure false
  after_error attempt duplicate_key = rollback >> after_integrity duplicate_key >> pure false
  after_error attempt foreign_key = rollback >> after_integrity foreign_key >> pure false
  after_error attempt exception = rollback >> give_up exception >> pure false

  -- One round of `while True`: whether the function returns.
  unfoldable pub round : Assigned → ℕ → Here r c Bool
  unfolding ◌>>◌ connect catch attempt_booking after_error
  round new attempt = connect >> catch (attempt_booking new >> pure true) (after_error attempt)

  unfoldable pub rounds : (ℕ → Assigned) → ℕ → ℕ → Here r c Bool
  unfolding ◌>>=◌ round
  rounds new zero attempt = pure false
  rounds new (suc n) attempt =
      let again = rounds new n (suc attempt) in
      round (new attempt) attempt >>= λ returns. elim returns [ true ↦ pure true | false ↦ again ]

  unfoldable pub process_concert_booking : (ℕ → Assigned) → ℕ → Here r c Bool
  unfolding rounds
  process_concert_booking new n = rounds new n 1
