-- ===== src/Worker/Concert/Effects.antt =====
-- What a concert booking does to the two Redis databases when it ends: the result, the hold, the two
-- counters, the read caches (`_concert_delete_read_caches`), and the closing of the show.
use awstest.Prelude.{ℕ, String, Bool, true, false, some, List, [], ◌∷◌, ltb, ◌&&◌, if◌then◌else◌}
use awstest.Prelude.Int.{ℤ, pos, ◌-ℤ◌}
use awstest.Redis.Commands.{num, value, get, delete}
use awstest.Redis.Raising as Raising
use awstest.Redis.Raising.{command, execute, or_else}
use awstest.Cache.{Seat, bootstrap, snapshot, remain}
use awstest.Cache.Safe.{CacheReply}
use awstest.Booking.{concert, Verdict, failed, DeskServer, Settings}
use awstest.Booking.Results.{store_result, store_failure_result}
use awstest.SeatHold.Views.{Server}
use awstest.Worker.{Work}
use awstest.Worker.Holds.{
  finalize_concert_hold_by_ref, adjust_concert_remain, adjust_concert_pending,
}
use awstest.Worker.Closing.{Attempt, Closing, returned, raised, maybe_close_show}
use awstest.Worker.Concert.Tables.{Raised, operational, Result, ok, raise}
use awstest.Worker.Concert.Job.{World, Task, pure, ◌>>◌, rollback, on_desk, on_cache}

-- `seats` are the pairs that the texts of the message spell.
pub record Request : Type 0 where
  pub booking_ref : String
  pub user_id : ℕ
  pub show_id : ℕ
  pub seats : List Seat
  pub pending_count : ℕ

-- `tries` is WORKER_DB_DEADLOCK_RETRIES, `closings` how the attempts to close a show end, `message` the
-- text of an exception.
pub record Env : Type 0 where
  pub settings : Settings
  pub tries : ℕ
  pub closings : List Attempt
  pub message : Raised → String

-- `_to_int(raw, 0)`
abbrev pub number_of : CacheReply → ℤ
number_of (value (num n)) = n
number_of _ = pos 0

-- The replies are not read.
unfoldable pub concert_delete_read_caches : ℕ → ℕ → Work (Unit {0})
unfolding execute
concert_delete_read_caches concert_id show_id =
    if ltb 0 concert_id && ltb 0 show_id
    then or_else
        (Raising.◌>>◌ (execute (delete (bootstrap concert_id) ∷ delete (snapshot show_id) ∷ []))
          (Raising.ok tt))
        tt
    else Raising.ok tt

unfoldable pub read_remain : ℕ → Work ℤ
unfolding command
read_remain show_id =
    or_else (Raising.◌>>=◌ (command (get (remain show_id))) (λ raw. Raising.ok (number_of raw)))
      (pos 0)

abbrev pub closed_by : {D C : Type 0} → Closing → World D C → Result (Unit {0}) × World D C
closed_by (returned shows) w = (
  ok tt,
  record w {
    tables = record (w.committed) { shows = shows };
    committed = record (w.committed) { shows = shows };
  },
)
closed_by raised w = (raise operational, w)

abbrev pub Here : DeskServer → Server → Type 0 → Type 0
Here r c = Task r.Db c.Db

module _ (r : DeskServer) (c : Server) (env : Env) (q : Request) where
  unfoldable pub when : Bool → Here r c (Unit {0}) → Here r c (Unit {0})
  when true m = m
  when false m = pure tt

  unfoldable pub store : Verdict → Here r c (Unit {0})
  store v = on_desk r c (store_result env.settings q.booking_ref v (some concert) q.show_id)

  unfoldable pub store_failure : Verdict → Here r c (Unit {0})
  store_failure v =
      on_desk r c (store_failure_result env.settings q.booking_ref v (some concert) q.show_id)

  unfoldable pub finalize : Bool → Here r c (Unit {0})
  unfolding ◌>>◌
  finalize restores = on_cache r c (finalize_concert_hold_by_ref q.booking_ref restores) >> pure tt

  unfoldable pub put_back : Here r c (Unit {0})
  unfolding when
  put_back =
      when (ltb 0 q.pending_count)
        (on_cache r c (adjust_concert_remain q.show_id (pos q.pending_count)))

  unfoldable pub drop_pending : Here r c (Unit {0})
  unfolding when
  drop_pending =
      when (ltb 0 q.pending_count)
        (on_cache r c (adjust_concert_pending q.show_id (pos 0 -ℤ pos q.pending_count)))

  -- The booking cannot be: rolled back, the result is stored, and the seats are given back.
  unfoldable pub refuse : String → Here r c (Unit {0})
  unfolding ◌>>◌ rollback store finalize put_back
  refuse code = rollback >> store (failed code "") >> finalize true >> put_back

  -- It has failed: an OK result is kept.
  unfoldable pub fail : Verdict → Here r c (Unit {0})
  unfolding ◌>>◌ store_failure finalize put_back drop_pending
  fail v = store_failure v >> finalize true >> put_back >> drop_pending

  unfoldable pub confirm : ℕ → Here r c (Unit {0})
  unfolding ◌>>◌ finalize drop_pending
  confirm concert_id =
      finalize false
      >> drop_pending
      >> on_cache r c (concert_delete_read_caches concert_id q.show_id)

  unfoldable pub get_remain : Here r c ℤ
  get_remain = on_cache r c (read_remain q.show_id)

  unfoldable pub close_if_soldout : ℤ → Here r c (Unit {0})
  close_if_soldout n w =
      closed_by (maybe_close_show env.tries q.show_id n env.closings (w.committed.shows)) w
