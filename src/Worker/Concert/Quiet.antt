-- ===== src/Worker/Concert/Quiet.antt =====
-- What a concert booking does to the Redis databases commits nothing.
use awstest.Prelude.{ℕ, String, Bool, true, false, Option, none, some, ltb}
use awstest.Prelude.Int.{ℤ}
use awstest.Booking.{Booked, Verdict, booked, failed, Desk, DeskServer}
use awstest.SeatHold.Views.{Server}
use awstest.Worker.{Work}
use awstest.Worker.Holds.{seats_of}
use awstest.Worker.Closing.{Closing, returned, raised, maybe_close_show}
use awstest.Worker.Recounts.{ConcertShow}
use awstest.Worker.Concert.Tables.{
  ConcertBooking, Raised, deadlock, operational, duplicate_ref, duplicate_key, foreign_key,
  exception, same_seats, payment_of,
}
use awstest.Worker.Concert.Job.{pure, ◌>>=◌, ◌>>◌, select, connect, rollback, on_desk, on_cache}
use awstest.Worker.Concert.Effects.{
  Request, Env, Here, when, store, store_failure, finalize, put_back, drop_pending, refuse, fail,
  confirm, get_remain, close_if_soldout, closed_by,
}
use awstest.Worker.Concert.Recovery.{
  store_found, known_ok, end_found, found_complete, poll_ok_from_db_if_complete, code_or_empty,
}
use awstest.Worker.Concert.{give_up, after_integrity, after_error, report}
use awstest.Worker.Concert.Triples.{
  Frame, frame_of, Ends, ends, raises, Committed, Quiet, pure-Quiet, select-Quiet, connect-Quiet,
  rollback-Quiet, bind-Quiet, next-Quiet, catch-Quiet, if-Quiet, elim-Quiet, on_desk-Both,
  on_cache-Both,
}

module _ (R : Frame → Type 0) (r : DeskServer) (c : Server) (env : Env) (q : Request) where
  abbrev Still : {A : Type 0} → Here r c A → Type 0
  Still = Quiet R

  desk-Quiet : {A : Type 0} (m : Desk A) → Still (on_desk r c m)
  desk-Quiet m = on_desk-Both r c (λ t d. R (frame_of d)) m

  cache-Quiet : {A : Type 0} (m : Work A) → Still (on_cache r c m)
  cache-Quiet m = on_cache-Both r c (λ t d. R (frame_of d)) m

  when-Quiet : (b : Bool) (m : Here r c (Unit {0})) → Still m → Still (when r c env q b m)
  unfolding when
  when-Quiet true m h = h
  when-Quiet false m h = pure-Quiet R tt

  store-Quiet : (v : Verdict) → Still (store r c env q v)
  unfolding store
  store-Quiet v = desk-Quiet _

  finalize-Quiet : (b : Bool) → Still (finalize r c env q b)
  unfolding finalize
  finalize-Quiet b = next-Quiet R _ (pure tt) (cache-Quiet _) (pure-Quiet R tt)

  put_back-Quiet : Still (put_back r c env q)
  unfolding put_back
  put_back-Quiet = when-Quiet _ _ (cache-Quiet _)

  drop_pending-Quiet : Still (drop_pending r c env q)
  unfolding drop_pending
  drop_pending-Quiet = when-Quiet _ _ (cache-Quiet _)

  pub refuse-Quiet : (code : String) → Still (refuse r c env q code)
  unfolding refuse
  refuse-Quiet code =
      next-Quiet R (rollback >> store r c env q (failed code "") >> finalize r c env q true) _
        (next-Quiet R (rollback >> store r c env q (failed code "")) _
          (next-Quiet R rollback _ (rollback-Quiet R) (store-Quiet _)) (finalize-Quiet true))
        put_back-Quiet

  pub fail-Quiet : (v : Verdict) → Still (fail r c env q v)
  unfolding fail store_failure
  fail-Quiet v =
      next-Quiet R (store_failure r c env q v >> finalize r c env q true >> put_back r c env q) _
        (next-Quiet R (store_failure r c env q v >> finalize r c env q true) _
          (next-Quiet R _ _ (desk-Quiet _) (finalize-Quiet true)) put_back-Quiet)
        drop_pending-Quiet

  pub confirm-Quiet : (concert_id : ℕ) → Still (confirm r c env q concert_id)
  unfolding confirm
  confirm-Quiet concert_id =
      next-Quiet R (finalize r c env q false >> drop_pending r c env q) _
        (next-Quiet R _ _ (finalize-Quiet false) drop_pending-Quiet) (cache-Quiet _)

  get_remain-Quiet : Still (get_remain r c env q)
  unfolding get_remain
  get_remain-Quiet = cache-Quiet _

  close_if_soldout-Quiet : (n : ℤ) → Still (close_if_soldout r c env q n)
  unfolding close_if_soldout
  close_if_soldout-Quiet n w p =
      closes (maybe_close_show env.tries q.show_id n env.closings (w.committed.shows))
    where
      closes : (x : Closing) → Ends (λ a. Committed R) (Committed R) (closed_by x w)
      closes (returned shows) = ends p
      closes raised = raises p

  pub report-Quiet : (s : ConcertShow) (b : Booked) → Still (report r c env q s b)
  unfolding report
  report-Quiet s b =
      next-Quiet R (store r c env q (booked b) >> confirm r c env q s.concert_id) _
        (next-Quiet R _ _ (store-Quiet _) (confirm-Quiet _)) (close_if_soldout-Quiet _)

  pub store_found-Quiet :
      (b : ℕ) (code : String) (payment_id : ℕ) → Still (store_found r c env q b code payment_id)
  unfolding store_found
  store_found-Quiet b code payment_id = bind-Quiet R _ _ get_remain-Quiet (λ n. store-Quiet _)

  pub known_ok-Quiet : (m : Here r c (Unit {0})) → Still m → Still (known_ok r c env q m)
  unfolding known_ok
  known_ok-Quiet m h =
      catch-Quiet R _ _
        (bind-Quiet R _ _ (desk-Quiet _) (λ kept.
          elim-Quiet R kept (m >> pure true) (pure false) (next-Quiet R m _ h (pure-Quiet R true))
            (pure-Quiet R false)))
        (λ e. pure-Quiet R false)

  end_found-Quiet : (s : ConcertShow) → Still (end_found r c env q s)
  unfolding end_found
  end_found-Quiet s = next-Quiet R _ _ (finalize-Quiet false) (cache-Quiet _)

  found_complete-Quiet :
      (b : ConcertBooking) (s : ConcertShow) → Still (found_complete r c env q b s)
  unfolding found_complete
  found_complete-Quiet b s =
      bind-Quiet R _ _ (select-Quiet R _) λ have. compared (same_seats have (seats_of q.seats))
    where
      done : Here r c (Unit {0})
      done = end_found r c env q s

      recorded : (payment_id : ℕ) → Here r c Bool
      recorded payment_id =
          store_found r c env q b.booking_id (code_or_empty b.booking_code) payment_id
          >> done
          >> pure true

      recorded-Quiet : (payment_id : ℕ) → Still (recorded payment_id)
      recorded-Quiet payment_id =
          next-Quiet R
            (store_found r c env q b.booking_id (code_or_empty b.booking_code) payment_id >> done) _
            (next-Quiet R _ done (store_found-Quiet _ _ _) (end_found-Quiet s)) (pure-Quiet R true)

      known :
          (payment_id : ℕ) (k : Bool)
          → Still (elim k [ true ↦ pure true | false ↦ recorded payment_id ])
      known payment_id true = pure-Quiet R true
      known payment_id false = recorded-Quiet payment_id

      compared :
          (same : Bool)
          → Still (elim same [
            | false ↦ pure false
            | true ↦
                (select (λ t. payment_of b.booking_id t.payments) >>= λ payment_id.
                known_ok r c env q done >>= λ k. elim k [
                  | true ↦ pure true
                  | false ↦ recorded payment_id
                ])
          ])
      compared false = pure-Quiet R false
      compared true = bind-Quiet R _ _ (select-Quiet R _) λ payment_id.
          bind-Quiet R _ _ (known_ok-Quiet done (end_found-Quiet s)) (known payment_id)

  poll-Quiet : Still (poll_ok_from_db_if_complete r c env q)
  unfolding poll_ok_from_db_if_complete
  poll-Quiet =
      next-Quiet R connect _ (connect-Quiet R)
        (catch-Quiet R _ _ (bind-Quiet R _ _ (select-Quiet R _) found) (λ e. pure-Quiet R false))
    where
      found :
          (o : Option (ConcertBooking × ConcertShow))
          → Still (elim o [ none ↦ pure false | some (b, s) ↦ found_complete r c env q b s ])
      found none = pure-Quiet R false
      found (some (b, s)) = found_complete-Quiet b s

  give_up-Quiet : (e : Raised) → Still (give_up r c env q e)
  unfolding give_up
  give_up-Quiet e = fail-Quiet _

  polled-Quiet : Still (
      poll_ok_from_db_if_complete r c env q >>= λ complete. elim complete [
        | true ↦ pure tt
        | false ↦ fail r c env q (failed "DUPLICATE_SEAT" "")
      ])
  polled-Quiet =
      bind-Quiet R _ _ poll-Quiet λ b. elim-Quiet R b _ _ (pure-Quiet R tt) (fail-Quiet _)

  after_integrity-Quiet : (e : Raised) → Still (after_integrity r c env q e)
  unfolding after_integrity
  after_integrity-Quiet foreign_key = fail-Quiet _
  after_integrity-Quiet deadlock = polled-Quiet
  after_integrity-Quiet operational = polled-Quiet
  after_integrity-Quiet duplicate_ref = polled-Quiet
  after_integrity-Quiet duplicate_key = polled-Quiet
  after_integrity-Quiet exception = polled-Quiet

  rolled_back :
      {A : Type 0} (m : Here r c (Unit {0})) (a : A) → Still m → Still (rollback >> m >> pure a)
  rolled_back m a h =
      next-Quiet R (rollback >> m) _ (next-Quiet R rollback m (rollback-Quiet R) h) (pure-Quiet R a)

  -- No except branch commits anything.
  pub after_error-Quiet : (attempt : ℕ) (e : Raised) → Still (after_error r c env q attempt e)
  unfolding after_error
  after_error-Quiet attempt deadlock = next-Quiet R rollback _ (rollback-Quiet R) (
      if-Quiet R (ltb attempt env.tries) (pure false) (give_up r c env q deadlock >> pure true)
        (pure-Quiet R false) (next-Quiet R _ _ (give_up-Quiet deadlock) (pure-Quiet R true)))
  after_error-Quiet attempt operational = rolled_back _ true (give_up-Quiet operational)
  after_error-Quiet attempt duplicate_ref =
      rolled_back _ false (after_integrity-Quiet duplicate_ref)
  after_error-Quiet attempt duplicate_key =
      rolled_back _ false (after_integrity-Quiet duplicate_key)
  after_error-Quiet attempt foreign_key = rolled_back _ false (after_integrity-Quiet foreign_key)
  after_error-Quiet attempt exception = rolled_back _ false (give_up-Quiet exception)
