-- ===== src/Lib.antt =====
-- The booking core of a ticketing service: what its Redis programs do, on a server that behaves as
-- documented, when requests fail.
--
-- The program. A user waits in a waiting room until the gate admits them and a permit is issued
-- (services/ticketing-was/waiting_room.py, in the booking database). The write API then holds the
-- seats of a concert in the read cache (services/ticketing-was/concert/seat_hold.py), and a worker
-- books them later. A hold is a seat key that SET NX gives to a booking reference; a counter of the
-- remaining seats goes down with it. The read cache is reached through a client that answers a
-- default for every failed request (services/ticketing-was/cache/redis_client.py); the booking
-- database through redis-py, which raises. A message goes to the worker by SQS
-- (services/ticketing-was/sqs_client.py). The worker (services/worker-svc/main.py) books in the tables
-- of db-schema/create.sql, ends the hold, and stores the result that the write API polls.
--
-- The files.
--   Prelude        shared names; Prelude/Int the signed integers, Prelude/Text Python's strip, upper
--                  and lower on ASCII text and which texts they take to a word (Casing), Prelude/Lists,
--                  Prelude/Tests
--   Redis          commands, replies and their documented effect (Commands); programs that send
--                  requests, the server as a record of operations and laws, and the failures to come
--                  as a list (Program); any server agrees with the documented one (Simulation); what
--                  pipelines answer and leave (Pipeline, Reading); programs that leave a key alone
--                  (Sends, Spares); programs that raise (Raising), what they return (Returns) and
--                  what they leave (Ensures)
--   Cache          keys and documents of the read cache; Cache/Safe is _SafeRedisClient, one
--                  definition for a method
--   SeatHold       seat_hold.py: Counter (adjust_remain, try_decrease_remain_if_enough and their
--                  scripts), Expiry (_expire_hold_cache_on_soldout), Guard (any_confirmed,
--                  add_confirmed_seats, remove_confirmed_seats), Hold (try_hold_seats, release_seats,
--                  the revision, the snapshots). Below each, the modules that prove
--   WaitingRoom    waiting_room.py: Control (_control_snapshot, set_control, set_control_full,
--                  observe), Rate (_rps_estimate, _auto_effective_rate), Gate (_advance_done),
--                  Tickets (enter, status, verify_permit), Desk (reset, metrics)
--   Booking        the booking database: Results (store_result, store_failure_result of main.py),
--                  Queue (send_booking_message, get_booking_status_dict of sqs_client.py), Contract
--                  (both together)
--   Worker         main.py: Holds (_finalize_concert_hold_by_ref), Tables (statements as functions on
--                  tables), Theater (process_theater_booking), Concert (process_concert_booking and
--                  _concert_poll_ok_from_db_if_complete: Tables its statements, Job the programs that
--                  raise, Effects what it does to the Redis databases, Recovery a reference that the
--                  tables have already), Messages (_handle_one_sqs_message,
--                  _process_received_batch), Recounts (_sync_one_concert_show_remain_from_redis),
--                  Closing (_maybe_close_concert_show_if_soldout)
--   ConcertWrite   commit_concert_booking of concert_write.py over the three databases (Session), and
--                  _seed_remain_count_if_missing (Seeding)
--   Refund         _refund_concert_booking of user/user_write.py: Statements on the tables of the
--                  concert bookings, Spec what a refund promises of each row, Rows that it does so
--   Sale           sale_state.py and the routes of concert_write.py that open and close a sale
--   The modules Examples apply the theorems at concrete stores and tables.
--
-- The model. A program is a tree of requests; a request is a script that the server runs whole, a
-- pipeline (MULTI and EXEC) or a Lua script. The server is a parameter: its database, how it
-- executes one command, and that this is as documented. A failure is a request that is not
-- executed; the list of failures says for each request in turn whether it fails. There is no fuel:
-- each program is a finite tree; only the loop of process_concert_booking, which need not end,
-- takes the number of its rounds. Time is an argument where the source reads the clock, as are
-- uuid4 and the answers of SCAN. A time to live is what the last command gave the key; keys do not
-- expire while one program runs. A statement of a transaction gives rows, breaks a key, or fails,
-- with a list of failures of its own; ROLLBACK is taken not to fail, and what AUTO_INCREMENT
-- assigns is an argument. Other clients' requests do not come between those of one program. Numbers
-- are unbounded, as in Python; the floats of the rates are exact below 2 ^ 53. Show, row, column,
-- entity and user numbers are not negative.
--
-- Not modelled: the threads of the worker and its polling loops; the other routes of the write API
-- and the refund of a theater booking; the read views, the accounts, wiring and settings; the load
-- scripts, the front end and the infrastructure.
pub mod Prelude
pub mod Redis
pub mod Cache
pub mod SeatHold
pub mod WaitingRoom
pub mod Worker
pub mod Booking
pub mod Sale
pub mod ConcertWrite
pub mod Refund
