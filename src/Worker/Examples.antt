-- ===== src/Worker/Examples.antt =====
-- The theorems on the worker, at a schedule of two seats, and at a hold of one seat.
use awstest.Prelude.{
  ℕ, String, ◌+◌, ◌-◌, ◌≡◌, ◌≢◌, ◌⊎◌, ◌++◌, ltb, refl, true, false, Bool, none, some, [], ◌∷◌,
  arith, ◌==◌, ◌&&◌, str_eq, if◌then◌else◌,
}
use mathlib.Core.Option as Option
use awstest.Prelude.Int.{pos}
use awstest.Redis.Commands.{doc}
use awstest.Redis.Program.{run}
use awstest.Redis.Simulation.{documented}
use awstest.Redis.Spares.{value_of}
use awstest.Cache.{seat, hold_meta, Key-discrete, Member-discrete, text, meta}
use awstest.Cache.Safe.{CacheValue}
use awstest.SeatHold.Views.{CacheStore, Server, owner}
use awstest.Booking as Booking
use awstest.Booking.{Settings, Booked, Verdict, failed, verdict_doc, DeskStore, DeskServer}
use awstest.Worker.Holds.{finalize_concert_hold_by_ref}
use awstest.Worker.Holds.Ownership.{finalize-keeps_owner}
use awstest.Worker.Tables.{
  Schedule, Tables, done, SeatRow, Answer, ◌>>=◌, ◌>>◌, give, select_schedule, select_seat,
  take_remain, insert_booking, update_code, insert_seat, insert_payment, close_schedule, taken,
}
use awstest.Worker.Theater.{Request, Assigned, reserved, transaction, process_theater_booking}
use awstest.Worker.Theater.Balance.{Balanced, sold}
use awstest.Worker.Theater.Invariant.{theater-keeps_balance}
use awstest.Worker.Theater.Reports.{theater-reports_error}
use awstest.Worker.Theater.Frame.{frame_of}
use awstest.Worker.Theater.Sales.{Sold, theater-sells_all}
use awstest.Cache.{remain}
use awstest.Redis.Commands.{num}
use awstest.Worker.Recounts.{ConcertShow, Shows, sync_one_concert_show_remain}
use awstest.Worker.Closing.{succeeds, returned, maybe_close_show}
use awstest.Worker.Closing.Retries.{as_closed, many_deadlocks, close-survives}
use awstest.Worker.Recounts.Agreeing.{Agrees, sync-Agrees}
use awstest.Worker.Messages.{Message, World, Workers, handle_one_sqs_message}
use awstest.Worker.Messages.Redelivery.{redelivery-acks}

abbrev server : Server
server = documented Key-discrete Member-discrete

abbrev theirs : CacheValue
theirs = doc (text "other")

other≢mine : theirs ≢ doc (text "mine")
other≢mine p = cc

-- The document of "mine" lists a seat that "other" has got since.
abbrev held_store : CacheStore
held_store (seat n (x, y)) =
    if n == 1 && x == 1 && y == 1 then some (record { value = theirs; ttl = none }) else none
held_store (hold_meta ref) =
    if str_eq ref "mine"
    then some (record {
      value = doc (
          meta (record {
            show_id = 1;
            seats = (1, 1) ∷ (1, 2) ∷ [];
            ttl_sec = 0;
            created_at_epoch_ms = 0;
          }));
      ttl = none;
    })
    else none
held_store k = none

finalize-keeps_owner_example :
    owner
      (run server (finalize_concert_hold_by_ref "mine" true) (false ∷ []) held_store).db
      1
      (1, 1)
    ≡ some theirs
finalize-keeps_owner_example =
    finalize-keeps_owner "mine" 1 (1, 1) theirs other≢mine server true (false ∷ []) held_store refl

abbrev settings : Settings
settings = record { result_ttl = 86400; queued_ttl = 3600; counter_ttl = 3600 }

abbrev two_seats : Schedule
two_seats = record {
  hall_id = 3;
  theater_id = 2;
  total_count = 2;
  remain_count = 2;
  closed = false;
}

abbrev tables : Tables
tables = record {
  users = λ u. u == 7;
  seat_ids = λ h s. if h == 3 then some (s.0 + s.1) else none;
  schedules = λ j. if j == 1 then some two_seats else none;
  bookings = [];
  active = [];
  payments = [];
}

abbrev wanted : Request
wanted = record { booking_ref = "r1"; user_id = 7; schedule_id = 1; seats = (1, 1) ∷ [] }

abbrev new : Assigned
new = record { booking_id = 4; payment_id = 9; codes = "AB123456" ∷ [] }

balanced_row :
    (b : Bool) (s : Schedule)
    → (if b then some two_seats else none) ≡ some s
    → s.remain_count + 0 ≡ s.total_count
balanced_row true s h = ground arith
balanced_row false s h = cc

tables-Balanced : Balanced tables
unfolding sold
tables-Balanced j s h = balanced_row (j == 1) s h

theater-keeps_balance_example :
    Balanced (process_theater_booking settings wanted new "lost" [] tables).tables
theater-keeps_balance_example =
    theater-keeps_balance wanted new settings "lost" [] tables tables-Balanced

theater-sells_all_example :
    let p = process_theater_booking settings wanted new "lost" [] tables in
    ((p.tables ≡ tables) × (p.stale ≡ none))
    ⊎ (Sold wanted new tables (frame_of p.tables) × (p.stale ≢ none))
theater-sells_all_example = theater-sells_all wanted new settings "lost" [] tables

abbrev booked_seat : Booked
booked_seat = record {
  booking_id = 4;
  booking_code = "AB123456";
  payment_id = 9;
  remain_count_after = pos 1;
}

abbrev after : Tables
after = record {
  users = tables.users;
  seat_ids = tables.seat_ids;
  schedules = λ j.
      if j == 1
      then awstest.Worker.Tables.on_row (λ s. record s { remain_count = s.remain_count - 1 })
          (tables.schedules j)
      else tables.schedules j;
  bookings =
      (record {
        booking_id = 4;
        booking_code = some "AB123456";
        user_id = 7;
        schedule_id = 1;
        reg_count = 1;
      })
      ∷ [];
  active = (record { schedule_id = 1; seat_id = 2; booking_id = 4 }) ∷ [];
  payments = 4 ∷ [];
}

reserves : transaction wanted new tables [] ≡ done (reserved booked_seat 2) after []
unfolding transaction
reserves = refl

abbrev desk : DeskServer
desk = documented Booking.Key-discrete Booking.Member-discrete

abbrev empty : DeskStore
empty k = none

theater-reports_error_example :
    let p = process_theater_booking settings wanted new "lost" [] tables in
    (p.tables ≡ after)
    × (value_of ((run desk p.report (true ∷ []) empty).db (Booking.result "r1"))
        ≡ some (doc (verdict_doc (failed "ERROR" "lost"))))
theater-reports_error_example =
    theater-reports_error settings wanted "lost" desk empty new [] tables after booked_seat 2 []
      reserves tt

abbrev stored : DeskStore
stored (Booking.result ref) =
    if str_eq ref "r1"
    then some (record { value = doc (verdict_doc (failed "SOLD_OUT" "")); ttl = none })
    else none
stored k = none

abbrev workers : Workers desk.Db ℕ
workers = record {
  book_concert = λ b w. (true, record w { rest = w.rest + 1 });
  book_theater = λ b w. (false, record w { rest = w.rest + 1 });
  accepts = λ s. true;
}

abbrev world : World desk.Db ℕ
world = record { desk = stored; faults = false ∷ true ∷ []; deleted = []; rest = 0 }

abbrev again : Message
again = record {
  receipt = some "h1";
  body = some (record { booking_ref = some "r1"; is_concert = true });
}

abbrev r1 : String
r1 = "r1"

r1≢empty : r1 ≢ ""
r1≢empty p = cc

redelivery-acks_example :
    let o = handle_one_sqs_message desk workers again world in
    (o.0 ≡ true) × (o.1.desk ≡ stored) × (o.1.deleted ≡ []) × (o.1.rest ≡ 0)
redelivery-acks_example =
    redelivery-acks desk workers "h1" "r1" true (failed "SOLD_OUT" "") world r1≢empty refl refl

abbrev ten_seats : ConcertShow
ten_seats = record {
  concert_id = 6;
  seat_rows = 2;
  seat_cols = 5;
  total_count = 10;
  remain_count = 7;
  closed = false;
}

abbrev shows : Shows
shows = λ j. if j == 1 then some ten_seats else none

abbrev show : ℕ
show = 1

abbrev no_show : ℕ
no_show = 0

show≢zero : show ≢ no_show
show≢zero p = omega (arith, p)

-- Two deadlocks, and three tries.
close-survives_example :
    (t : Shows) × (maybe_close_show 3 show (pos 0) (many_deadlocks 2 ++ (succeeds ∷ [])) shows
      ≡ returned t)
    × ((j : ℕ) → t j ≡ (if j == show && ltb 2 3 then Option.map as_closed (shows j) else shows j))
close-survives_example = close-survives 3 2 show (pos 0) [] shows show≢zero refl

abbrev counter_store : CacheStore
counter_store (remain n) = some (record { value = num (pos 14); ttl = none })
counter_store k = none

sync-Agrees_example :
    let first = run server (sync_one_concert_show_remain [] 1 shows) [] counter_store in
    (b : Bool) × (t : Shows) × (first.result ≡ some (b, t))
    × Agrees 1 14 ten_seats shows b t
    × ((run server (sync_one_concert_show_remain [] 1 t) [] first.db).result ≡ some (false, t))
sync-Agrees_example = sync-Agrees server counter_store 1 14 ten_seats shows refl (omega arith) refl
