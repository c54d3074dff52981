-- ===== src/Refund/Examples.antt =====
-- The theorem on refunds, of a booking of one seat.
use awstest.Prelude.{true, false, none, some, [], ◌∷◌, ◌==◌, if◌then◌else◌}
use awstest.Redis.Simulation.{documented}
use awstest.Cache.{Key-discrete, Member-discrete}
use awstest.SeatHold.Views.{Server, CacheStore}
use awstest.Worker.Recounts.{ConcertShow}
use awstest.Worker.Concert.Tables.{ConcertTables}
use awstest.Worker.Concert.Job.{World}
use awstest.Refund.Whole.{Whole, refund-all_or_nothing}
use awstest.Refund.{refund_concert_booking}

abbrev server : Server
server = documented Key-discrete Member-discrete

abbrev ten_seats : ConcertShow
ten_seats = record {
  concert_id = 6;
  seat_rows = 2;
  seat_cols = 5;
  total_count = 10;
  remain_count = 9;
  closed = false;
}

abbrev tables : ConcertTables
tables = record {
  users = λ u. u == 7;
  shows = λ j. if j == 1 then some ten_seats else none;
  bookings =
      (record {
        booking_id = 3;
        booking_code = some "CAB000001";
        user_id = 7;
        show_id = 1;
        reg_count = 1;
        cancelled = false;
        sqs_booking_ref = some "r0";
      })
      ∷ [];
  active = (record { booking_id = 3; show_id = 1; seat = (1, 1) }) ∷ [];
  payments = (record { payment_id = 5; booking_id = 3; paid = true }) ∷ [];
}

abbrev no_cache : CacheStore
no_cache k = none

-- The cache is not there.
abbrev world : World (Unit {0}) server.Db
world = record {
  tables = tables;
  committed = tables;
  statements = [];
  desk = tt;
  desk_faults = [];
  cache = no_cache;
  cache_faults = true ∷ true ∷ true ∷ [];
}

refund-all_or_nothing_example :
    let o = refund_concert_booking server 7 3 world in Whole 7 3 [] tables o.0 o.1.committed
refund-all_or_nothing_example = refund-all_or_nothing server 7 3 world
