-- ===== src/Worker/Concert/Settling.antt =====
-- What a concert booking does to the Redis databases returns, if no request to the booking database
-- fails, whatever requests to the read cache fail.
use awstest.Prelude.{ℕ, ◌≡◌, refl, Bool, true, false, some, [], ◌∷◌, ltb, ◌&&◌}
use awstest.Prelude.Int.{ℤ, pos, ◌-ℤ◌}
use awstest.Booking.{concert, Verdict, Desk, DeskStore, DeskServer, on_desk as on_store}
use awstest.Booking.Results.{store_result, store_failure_result}
use awstest.Booking.Results.Stored.{returns_run}
use awstest.Booking.Results.Returning.{store_failure-returns}
use awstest.SeatHold.Views.{Server}
use awstest.Worker.{Work}
use awstest.Worker.Holds.{
  finalize_concert_hold_by_ref, adjust_concert_remain, adjust_concert_pending,
}
use awstest.Worker.Holds.Returning.{
  NeverRaises, finalize-returns, adjust_remain-returns, adjust_pending-returns,
}
use awstest.Redis.Commands.{get, delete}
use awstest.Redis.Raising as Raising
use awstest.Redis.Raising.{ok, command, execute}
use awstest.Cache.{bootstrap, snapshot, remain}
use awstest.Redis.Raising.Getting.{or_else-Gets, if-Gets}
use awstest.Worker.Concert.Tables.{ConcertTables}
use awstest.Worker.Concert.Job.{World, pure, ◌>>◌, on_desk, on_cache}
use awstest.Worker.Concert.Effects.{
  Request, Env, Here, when, store, store_failure, finalize, put_back, drop_pending, fail, confirm,
  get_remain, concert_delete_read_caches, read_remain, number_of,
}
use awstest.Worker.Concert.Calm.{CalmAt, Gives, next-Gives, on_desk-Calm, on_cache-Calm}

delete_read_caches-returns :
    (concert_id show_id : ℕ) → NeverRaises (concert_delete_read_caches concert_id show_id)
unfolding concert_delete_read_caches
delete_read_caches-returns concert_id show_id =
    if-Gets (ltb 0 concert_id && ltb 0 show_id) _ (ok tt) (or_else-Gets deletes tt) (tt, refl)
  where
    deletes : Work (Unit {0})
    deletes =
        Raising.◌>>◌ (execute (delete (bootstrap concert_id) ∷ delete (snapshot show_id) ∷ []))
          (ok tt)

read_remain-returns : (show_id : ℕ) → NeverRaises (read_remain show_id)
unfolding read_remain
read_remain-returns show_id = or_else-Gets reads (pos 0)
  where
    reads : Work ℤ
    reads = Raising.◌>>=◌ (command (get (remain show_id))) (λ raw. ok (number_of raw))

module _ (r : DeskServer) (c : Server) (env : Env) (q : Request) (t : ConcertTables)
    (S : ConcertTables → Type 0) (F : r.Db → Type 0) where
  abbrev Settles : Here r c (Unit {0}) → Type 0
  Settles m = (w : World r.Db c.Db) → CalmAt t S F w → Gives tt (CalmAt t S F) (m w)

  next-Settles : (m n : Here r c (Unit {0})) → Settles m → Settles n → Settles (m >> n)
  next-Settles m n h g w p = next-Gives (Gives tt (CalmAt t S F)) (CalmAt t S F) tt m w (h w p) n g

  done-Settles : Settles (pure tt)
  done-Settles w p = (w, refl, p)

  when-Settles : (b : Bool) (m : Here r c (Unit {0})) → Settles m → Settles (when r c env q b m)
  unfolding when
  when-Settles true m h = h
  when-Settles false m h = done-Settles

  cache-Settles : (m : Work (Unit {0})) → NeverRaises m → Settles (on_cache r c m)
  cache-Settles m h w p = let x = on_cache-Calm r c t S w p m h in unit x.0 x.1
    where
      unit :
          (u : Unit {0})
          → Gives u (CalmAt t S F) (on_cache r c m w)
          → Gives tt (CalmAt t S F) (on_cache r c m w)
      unit tt g = g

  finalize-Settles : (restores : Bool) → Settles (finalize r c env q restores)
  unfolding finalize
  finalize-Settles restores w p =
      let m = finalize_concert_hold_by_ref q.booking_ref restores in
      let x = on_cache-Calm r c t S w p m (finalize-returns q.booking_ref restores) in
      next-Gives (Gives tt (CalmAt t S F)) (CalmAt t S F) x.0 (on_cache r c m) w x.1 (pure tt)
        done-Settles

  put_back-Settles : Settles (put_back r c env q)
  unfolding put_back
  put_back-Settles = when-Settles (ltb 0 q.pending_count) _ (
      cache-Settles (adjust_concert_remain q.show_id (pos q.pending_count))
        (adjust_remain-returns q.show_id (pos q.pending_count)))

  drop_pending-Settles : Settles (drop_pending r c env q)
  unfolding drop_pending
  drop_pending-Settles =
      let n = pos 0 -ℤ pos q.pending_count in
      when-Settles (ltb 0 q.pending_count) _
        (cache-Settles (adjust_concert_pending q.show_id n) (adjust_pending-returns q.show_id n))

  caches-Settles :
      (concert_id : ℕ) → Settles (on_cache r c (concert_delete_read_caches concert_id q.show_id))
  caches-Settles concert_id =
      cache-Settles (concert_delete_read_caches concert_id q.show_id)
        (delete_read_caches-returns concert_id q.show_id)

  pub confirm-Settles : (concert_id : ℕ) → Settles (confirm r c env q concert_id)
  unfolding confirm
  confirm-Settles concert_id =
      next-Settles (finalize r c env q false >> drop_pending r c env q) _
        (next-Settles (finalize r c env q false) _ (finalize-Settles false) drop_pending-Settles)
        (caches-Settles concert_id)

  -- Some number.
  pub get_remain-Settles :
      (w : World r.Db c.Db)
      → CalmAt t S F w
      → (n : ℤ) × Gives n (CalmAt t S F) (get_remain r c env q w)
  unfolding get_remain
  get_remain-Settles w p =
      on_cache-Calm r c t S w p (read_remain q.show_id) (read_remain-returns q.show_id)

module _ (r : DeskServer) (c : Server) (env : Env) (q : Request) (t : ConcertTables)
    (S : ConcertTables → Type 0) where
  abbrev Free : Here r c (Unit {0}) → Type 0
  Free = Settles r c env q t S (λ d. Unit)

  desk-Settles :
      (m : Desk (Unit {0}))
      → ((s : DeskStore) → (on_store m [] s).result ≡ some tt)
      → Free (on_desk r c m)
  desk-Settles m h w p = on_desk-Calm r c t S w p (λ d. Unit) m tt (h (r.look w.desk)) tt

  store-Settles : (v : Verdict) → Free (store r c env q v)
  unfolding store
  store-Settles v =
      desk-Settles (store_result env.settings q.booking_ref v (some concert) q.show_id)
        (returns_run env.settings q.booking_ref v (some concert) q.show_id)

  store_failure-Settles : (v : Verdict) → Free (store_failure r c env q v)
  unfolding store_failure
  store_failure-Settles v =
      desk-Settles (store_failure_result env.settings q.booking_ref v (some concert) q.show_id)
        (store_failure-returns env.settings q.booking_ref v (some concert) q.show_id)

  pub fail-Settles : (v : Verdict) → Free (fail r c env q v)
  unfolding fail
  fail-Settles v =
      next-Settles r c env q t S (λ d. Unit)
        (store_failure r c env q v >> finalize r c env q true >> put_back r c env q) _
        (next-Settles r c env q t S (λ d. Unit)
          (store_failure r c env q v >> finalize r c env q true) _
          (next-Settles r c env q t S (λ d. Unit) (store_failure r c env q v) _
            (store_failure-Settles v) (finalize-Settles r c env q t S (λ d. Unit) true))
          (put_back-Settles r c env q t S (λ d. Unit)))
        (drop_pending-Settles r c env q t S (λ d. Unit))
