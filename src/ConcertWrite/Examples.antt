-- ===== src/ConcertWrite/Examples.antt =====
-- The theorems on the commit of a booking, by user 7 for show 1, where "other" holds a seat.
use awstest.Prelude.{
  ℕ, ℕ_discrete, ◌≡◌, ◌≢◌, refl, true, false, none, some, [], ◌∷◌, ◌==◌, ◌&&◌, str_eq,
  if◌then◌else◌,
}
use awstest.Prelude.Int.{pos, ◌+ℤ◌, ◌-ℤ◌}
use awstest.Redis.Commands.{num, doc, answer, after, apply}
use awstest.Redis.Program.{run}
use awstest.Redis.Simulation.{documented}
use awstest.Redis.Spares.{value_of}
use awstest.Cache as Cache
use awstest.Cache.{Seat, seat, remain, text, has_seat}
use awstest.Cache.Safe.{CacheValue, execute, get, delete, scard, eval, sadd, expire, incr}
use awstest.SeatHold.Views.{CacheStore, owner}
use awstest.SeatHold.Guard.{any_confirmed}
use awstest.SeatHold.Counter.{try_decrease_remain_if_enough}
use awstest.SeatHold.Hold.{bump_hold_revision, try_hold_seats}
use awstest.Booking as Booking
use awstest.Booking.{DeskStore}
use awstest.Booking.Queue.{accepted, send_booking_message}
use awstest.WaitingRoom as WaitingRoom
use awstest.WaitingRoom.{permit, permit_doc}
use awstest.WaitingRoom.Gate.Steps.{RoomStore}
use awstest.WaitingRoom.Tickets.{verify_permit}
use awstest.WaitingRoom.Tickets.Checks.{PermitFor}
use awstest.ConcertWrite.Session.{Servers, World, on_room, on_desk, on_cache}
use awstest.ConcertWrite.Seeding.{row, seed_remain_count_if_missing}
use awstest.ConcertWrite.Ownership.{commit-keeps_owner}
use awstest.ConcertWrite.Admission.{ComesToNothing, commit-needs_permit}
use awstest.ConcertWrite.Holding.{commit-holds_seats}
use awstest.ConcertWrite.{
  Submission, Env, queued, parse_seats, permitted, place, enqueue, commit_concert_booking,
}

abbrev servers : Servers
servers = record {
  room = documented WaitingRoom.Key-discrete WaitingRoom.Member-discrete;
  desk = documented Booking.Key-discrete Booking.Member-discrete;
  cache = documented Cache.Key-discrete Cache.Member-discrete;
}

abbrev env : Env
env = record {
  room = record {
    admit_rate = 90;
    permit_ttl = 120;
    ref_ttl = 7200;
    counter_ttl = 7200;
    drain_sec = 90;
    max_rate = 220;
    min_rate = 8;
    window_sec = 1;
    observe_ttl = 30;
    bypass_backlog = 100;
    bypass_rps = 8;
    queue_on_backlog = 450;
    queue_on_rps = 30;
  };
  desk = record { result_ttl = 86400; queued_ttl = 3600; counter_ttl = 0 };
  cache = record { seat_hold_ttl = 0; soldout_ttl = 30; confirmed_ttl = 600 };
  scan = record { seat_keys = []; meta_refs = [] };
  lookup = row (some (pos 5));
  moment = record {
    advance_sec = 1;
    advance_ms = 1000;
    rate_sec = 1;
    issue_ms = 1000;
    token = "p2";
  };
  booking_ref = "b1";
  now_ms = 1000;
  valid = λ ref. true;
  fresh = "b2";
  delivery = accepted;
}

abbrev wanted : Submission
wanted = record {
  user_id = 7;
  show_id = 1;
  seats = some (1, 2) ∷ [];
  skip_hold = false;
  permit_token = "p1";
  queue_ref = "";
}

abbrev with_permit : RoomStore
with_permit (permit token) =
    if str_eq token "p1"
    then some (record {
      value = doc (
          permit_doc
            (record { kind = WaitingRoom.concert; entity_id = 1; user_id = 7; issued_at_ms = 0 }));
      ttl = none;
    })
    else none
with_permit k = none

abbrev without_permit : RoomStore
without_permit k = none

abbrev no_desk : DeskStore
no_desk k = none

abbrev theirs : CacheValue
theirs = doc (text "other")

abbrev show_1 : CacheStore
show_1 (seat n (x, y)) =
    if n == 1 && x == 1 && y == 1 then some (record { value = theirs; ttl = none }) else none
show_1 (remain n) = if n == 1 then some (record { value = num (pos 5); ttl = none }) else none
show_1 k = none

abbrev admitted : World servers
admitted = record {
  room = with_permit;
  room_faults = [];
  desk = no_desk;
  desk_faults = [];
  cache = show_1;
  cache_faults = [];
}

other≢b1 : theirs ≢ doc (text "b1")
other≢b1 p = cc

-- The first request of the hold fails.
abbrev failing : World servers
failing = record admitted { cache_faults = false ∷ false ∷ false ∷ true ∷ [] }

commit-keeps_owner_example :
    owner (commit_concert_booking servers env wanted failing).1.cache 1 (1, 1) ≡ some theirs
commit-keeps_owner_example =
    commit-keeps_owner servers env wanted 1 (1, 1) theirs other≢b1 failing refl

abbrev stranger : World servers
stranger = record admitted { room = without_permit }

no_permit : PermitFor WaitingRoom.concert 1 7 (value_of (without_permit (permit "p1"))) → ⊥
no_permit p = cc (p.1)

commit-needs_permit_example :
    let o = commit_concert_booking servers env wanted stranger in
    ComesToNothing o.0
    × ((show_id : ℕ) (y : Seat) → owner o.1.cache show_id y ≡ owner show_1 show_id y)
    × (o.1.desk ≡ no_desk)
commit-needs_permit_example = commit-needs_permit servers env wanted stranger no_permit refl

parses : parse_seats [] wanted.seats ≡ some ((1, 2) ∷ [])
unfolding parse_seats has_seat
parses = refl

is_queued : (commit_concert_booking servers env wanted admitted).0 ≡ some (queued "b1")
unfolding commit_concert_booking seed_remain_count_if_missing permitted place enqueue verify_permit
    try_decrease_remain_if_enough try_hold_seats any_confirmed send_booking_message execute get
    delete scard eval sadd expire incr bump_hold_revision run apply answer after Cache.Key-discrete
    WaitingRoom.Key-discrete Booking.Key-discrete ℕ_discrete ◌+ℤ◌ ◌-ℤ◌ has_seat on_cache on_room
    on_desk
is_queued = refl

commit-holds_seats_example :
    (owner (commit_concert_booking servers env wanted admitted).1.cache 1 (1, 2)
      ≡ some (doc (text "b1")))
    × Unit {0}
commit-holds_seats_example =
    commit-holds_seats servers env wanted ((1, 2) ∷ []) refl admitted "b1" parses refl is_queued
