-- ===== src/Worker/Theater.antt =====
-- `process_theater_booking`. The statements stand in `Tables`; `booking_id` and `payment_id` are what
-- AUTO_INCREMENT assigns, `codes` the codes that _generate_booking_code draws.
pub mod Balance
pub mod Invariant
pub mod Reports
pub mod Frame
pub mod Sales
use awstest.Prelude.{
  ℕ, suc, String, Bool, true, false, Option, none, some, List, [], ◌∷◌, leb, ltb, ◌==◌, length,
  if◌then◌else◌,
}
use awstest.Prelude.Int.{pos}
use awstest.Redis.Program.{Faults}
use awstest.Redis.Raising.{rescue, ok}
use awstest.Cache.{Seat}
use awstest.Booking.{theater, Booked, Verdict, booked, failed, Desk, Settings}
use awstest.Booking.Results.{store_result}
use awstest.Worker.Tables.{
  Schedule, Tables, Answer, done, integrity, error, Tx, ◌>>=◌, ◌>>◌, give, sends, select_schedule,
  select_seat, take_remain, close_schedule, insert_booking, update_code, insert_seat,
  insert_payment,
}
use awstest.Worker.Holds.{seats_of}

pub record Request : Type 0 where
  pub booking_ref : String
  pub user_id : ℕ
  pub schedule_id : ℕ
  pub seats : List Seat

pub record Assigned : Type 0 where
  pub booking_id : ℕ
  pub payment_id : ℕ
  pub codes : List String

-- How the transaction ends before COMMIT.
pub data Ending : Type 0 where
  not_found invalid_seat sold_out : Ending
  reserved : Booked → ℕ → Ending

unfoldable pub find_seats : ℕ → List Seat → Tx (Option (List ℕ))
unfolding ◌>>=◌ give select_seat
find_seats hall [] = give (some [])
find_seats hall (s ∷ ss) = do
  found ← select_seat hall s
  elim found [
    | none ↦ give none
    | some id ↦ (do
      rest ← find_seats hall ss
      elim rest [ none ↦ give none | some ids ↦ give (some (id ∷ ids)) ])
  ]

-- A code that is in use is an IntegrityError, and the next one is tried.
unfoldable pub choose_code : ℕ → List String → Tx String
unfolding update_code
choose_code booking_id [] t fs = done "" t fs
choose_code booking_id (c ∷ cs) t fs = elim (update_code booking_id c t fs) [
  | done u t' fs' ↦ done c t' fs'
  | integrity fs' ↦ choose_code booking_id cs t fs'
  | error ↦ error
]

unfoldable pub insert_seats : ℕ → ℕ → List ℕ → Tx (Unit {0})
unfolding ◌>>◌ give insert_seat
insert_seats booking_id schedule_id [] = give tt
insert_seats booking_id schedule_id (s ∷ ss) =
    insert_seat booking_id schedule_id s >> insert_seats booking_id schedule_id ss

remain_of : Option Schedule → ℕ
remain_of none = 0
remain_of (some s) = s.remain_count

pub close_if_empty : ℕ → ℕ → Tx (Unit {0})
unfolding close_schedule give
close_if_empty schedule_id n = if n == 0 then close_schedule schedule_id else give tt

pub reserve : Request → Assigned → ℕ → List ℕ → Tx Ending
unfolding ◌>>=◌ ◌>>◌ give insert_booking choose_code insert_seats insert_payment select_schedule
    close_if_empty remain_of
reserve q new theater_id seat_ids = do
  insert_booking new.booking_id q.user_id q.schedule_id (length (seats_of q.seats))
  code ← choose_code new.booking_id new.codes
  insert_seats new.booking_id q.schedule_id seat_ids
  insert_payment new.payment_id new.booking_id
  row ← select_schedule q.schedule_id
  close_if_empty q.schedule_id (remain_of row)
  give (
      reserved
        (record {
          booking_id = new.booking_id;
          booking_code = code;
          payment_id = new.payment_id;
          remain_count_after = pos (remain_of row);
        })
        theater_id)

pub with_seats : Request → Assigned → ℕ → Option (List ℕ) → Tx Ending
unfolding ◌>>=◌ give take_remain reserve
with_seats q new theater_id none = give invalid_seat
with_seats q new theater_id (some seat_ids) = do
  changed ← take_remain q.schedule_id (length (seats_of q.seats))
  elim changed [ false ↦ give sold_out | true ↦ reserve q new theater_id seat_ids ]

pub with_row : Request → Assigned → Option Schedule → Tx Ending
unfolding ◌>>=◌ give find_seats with_seats
with_row q new none = give not_found
with_row q new (some s) = do
  found ← find_seats s.hall_id (seats_of q.seats)
  with_seats q new s.theater_id found

unfoldable pub transaction : Request → Assigned → Tx Ending
unfolding ◌>>=◌ select_schedule with_row
transaction q new = do row ← select_schedule q.schedule_id; with_row q new row

-- What is left: the tables, the program that stores the result, and the theater whose caches are
-- deleted after it.
pub record Processed : Type 0 where
  pub tables : Tables
  pub report : Desk (Unit {0})
  pub stale : Option ℕ

module _ (settings : Settings) (q : Request) where
  store : Verdict → Desk (Unit {0})
  unfolding store_result
  store v = store_result settings q.booking_ref v (some theater) q.schedule_id

  -- An exception of the first store goes to the branch that stores ERROR.
  report_in_try : String → Verdict → Desk (Unit {0})
  unfolding store
  report_in_try message v = rescue (store v) (store (failed "ERROR" message))

  -- COMMIT is a statement, too.
  committed : String → Tables → Tables → Booked → ℕ → Faults → Processed
  unfolding store report_in_try
  committed message before after b theater_id (true ∷ fs) = record {
    tables = before;
    report = store (failed "ERROR" message);
    stale = none;
  }
  committed message before after b theater_id fs = record {
    tables = after;
    report = report_in_try message (booked b);
    stale = some theater_id;
  }

  rolled_back : String → Tables → Verdict → Processed
  unfolding report_in_try
  rolled_back message before v = record {
    tables = before;
    report = report_in_try message v;
    stale = none;
  }

  ended : String → Tables → Answer Ending → Processed
  unfolding store committed rolled_back
  ended message before (done (reserved b theater_id) after fs) =
      committed message before after b theater_id fs
  ended message before (done not_found after fs) =
      rolled_back message before (failed "NOT_FOUND" "")
  ended message before (done invalid_seat after fs) =
      rolled_back message before (failed "INVALID_SEAT" "")
  ended message before (done sold_out after fs) = rolled_back message before (failed "SOLD_OUT" "")
  ended message before (integrity fs) = record {
    tables = before;
    report = store (failed "DUPLICATE_SEAT" "");
    stale = none;
  }
  ended message before error = record {
    tables = before;
    report = store (failed "ERROR" message);
    stale = none;
  }

  -- `message` is the text of the exception.
  unfoldable pub process_theater_booking : Assigned → String → Faults → Tables → Processed
  unfolding transaction ended
  process_theater_booking new message fs t = ended message t (transaction q new t fs)
