-- ===== src/Worker/Concert/Examples.antt =====
-- The theorems on concert bookings, at a show of ten seats of which one is sold.
use awstest.Prelude.{ℕ, ◌≡◌, ◌≢◌, refl, true, false, none, some, [], ◌∷◌, ◌==◌, if◌then◌else◌}
use awstest.Redis.Simulation.{documented}
use awstest.Cache as Cache
use awstest.Cache.{has_seat}
use awstest.Booking as Booking
use awstest.Booking.{Booked, DeskServer, DeskStore}
use awstest.SeatHold.Views.{Server, CacheStore}
use awstest.Worker.Holds.{seats_of}
use awstest.Worker.Recounts.{ConcertShow}
use awstest.Worker.Concert.Tables.{
  ConcertTables, ok, deadlock, ConcertBooking, find_ref, is_taken, has_payment, seats_of_booking,
  same_seats,
}
use awstest.Worker.Concert.Job.{World}
use awstest.Worker.Concert.Effects.{Request, Env}
use awstest.Worker.Concert.{Assigned, any_outside, process_concert_booking}
use awstest.Worker.Concert.Triples.{frame_of}
use awstest.Worker.Concert.Once.{AtMostOnce}
use awstest.Worker.Concert.Rounds.{concert-books_once}
use awstest.Worker.Concert.Taken.{Taken}
use awstest.Worker.Concert.Storing.{Shows as HasResult}
use awstest.Worker.Concert.Once.{booked_as}
use awstest.Worker.Concert.Sales.{Fresh, concert-books_free}
use awstest.Worker.Concert.Redelivery.{Complete, redelivery-reports_ok}
use awstest.Worker.Concert.Places.{any_taken, no_twice}
use awstest.Worker.Concert.Endless.{taken-never_returns}
use awstest.Worker.Concert.Deadlocks.{deadlocked, deadlocks-give_up}

abbrev desk : DeskServer
desk = documented Booking.Key-discrete Booking.Member-discrete

abbrev server : Server
server = documented Cache.Key-discrete Cache.Member-discrete

abbrev env : Env
env = record {
  settings = record { result_ttl = 86400; queued_ttl = 3600; counter_ttl = 3600 };
  tries = 5;
  closings = [];
  message = λ e. "error";
}

abbrev ten_seats : ConcertShow
ten_seats = record {
  concert_id = 6;
  seat_rows = 2;
  seat_cols = 5;
  total_count = 10;
  remain_count = 9;
  closed = false;
}

abbrev first_booking : ConcertBooking
first_booking = record {
  booking_id = 3;
  booking_code = some "CAB000001";
  user_id = 7;
  show_id = 1;
  reg_count = 1;
  cancelled = false;
  sqs_booking_ref = some "r0";
}

abbrev tables : ConcertTables
tables = record {
  users = λ u. u == 7;
  shows = λ j. if j == 1 then some ten_seats else none;
  bookings = first_booking ∷ [];
  active = (record { booking_id = 3; show_id = 1; seat = (1, 1) }) ∷ [];
  payments = (record { payment_id = 5; booking_id = 3; paid = true }) ∷ [];
}

abbrev no_desk : DeskStore
no_desk k = none

abbrev no_cache : CacheStore
no_cache k = none

abbrev world : World desk.Db server.Db
world = record {
  tables = tables;
  committed = tables;
  statements = [];
  desk = no_desk;
  desk_faults = [];
  cache = no_cache;
  cache_faults = true ∷ [];
}

-- The SELECT of the first round and the COMMIT of the second fail by a deadlock.
abbrev failing : World desk.Db server.Db
failing = record world {
  statements = none ∷ some deadlock ∷ none ∷ none ∷ none ∷ none ∷ none ∷ none ∷ some deadlock ∷ [];
}

abbrev free_seat : Request
free_seat = record {
  booking_ref = "r1";
  user_id = 7;
  show_id = 1;
  seats = (2, 3) ∷ [];
  pending_count = 1;
}

abbrev sold_seat : Request
sold_seat = record free_seat { seats = (1, 1) ∷ [] }

abbrev assigned : ℕ → Assigned
assigned n = record { booking_id = 10; payment_id = 20; codes = "CAB000002" ∷ [] }

no_ref : find_ref "r1" (frame_of tables).lines ≡ none
unfolding find_ref
no_ref = refl

a_seat : seats_of free_seat.seats ≢ []
a_seat p = cc

concert-books_once_example :
    AtMostOnce free_seat
      (frame_of tables)
      (frame_of (process_concert_booking desk server env free_seat assigned 3 failing).1.committed)
concert-books_once_example =
    concert-books_once desk server env free_seat assigned 3 failing no_ref a_seat

tables-Taken : Taken sold_seat ten_seats tables
unfolding any_outside any_taken is_taken find_ref
tables-Taken = record { show = refl; inside = refl; user = refl; new_ref = refl; sold = refl }

taken-never_returns_example :
    let o = process_concert_booking desk server env sold_seat assigned 9 world in
    (o.0 ≡ ok false) × (o.1.committed ≡ tables)
taken-never_returns_example =
    taken-never_returns desk server env sold_seat tables ten_seats tables-Taken assigned 9 world
      refl refl refl

tables-Fresh : Fresh free_seat ten_seats (assigned 1) tables
unfolding any_outside any_taken no_twice is_taken find_ref has_seat has_payment
tables-Fresh = record {
  show = refl;
  inside = refl;
  user = refl;
  new_ref = refl;
  some_seat = refl;
  free = refl;
  apart = refl;
  unpaid = refl;
}

concert-books_free_example :
    let o = process_concert_booking desk server env free_seat assigned 1 world in
    (o.0 ≡ ok true)
    × (frame_of o.1.committed ≡ booked_as free_seat (assigned 1) (frame_of tables))
    × ((x : Booked) × (x.booking_id ≡ 10)
        × (x.payment_id ≡ 20)
        × HasResult desk server env free_seat x o.1.desk)
concert-books_free_example =
    concert-books_free desk server env free_seat tables ten_seats assigned 0 world tables-Fresh tt
      refl refl refl

-- The message of the booking that the tables have.
abbrev again : Request
again = record sold_seat { booking_ref = "r0" }

tables-Complete : Complete again ten_seats first_booking tables
unfolding any_outside find_ref seats_of_booking same_seats
tables-Complete = record {
  show = refl;
  inside = refl;
  some_seat = refl;
  found = refl;
  owner = refl;
  seats = refl;
}

redelivery-reports_ok_example :
    let o = process_concert_booking desk server env again assigned 1 world in
    (o.0 ≡ ok true)
    × (o.1.committed ≡ tables)
    × ((x : Booked) × HasResult desk server env again x o.1.desk)
redelivery-reports_ok_example =
    redelivery-reports_ok desk server env again tables ten_seats first_booking tables-Complete
      assigned 0 world refl refl refl

abbrev deadlocked_world : World desk.Db server.Db
deadlocked_world = record world { statements = deadlocked 5 }

deadlocks-give_up_example :
    let o = process_concert_booking desk server env free_seat assigned 5 deadlocked_world in
    (o.0 ≡ ok true) × (o.1.committed ≡ tables)
deadlocks-give_up_example =
    deadlocks-give_up desk server env free_seat tables assigned 4 0 deadlocked_world refl refl refl
      refl
