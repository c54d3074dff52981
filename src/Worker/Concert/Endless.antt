-- ===== src/Worker/Concert/Endless.antt =====
-- The loop of process_concert_booking does not end for a request for a seat that is sold.
use awstest.Prelude.{
  ℕ, zero, suc, ◌≡◌, refl, ap, subst, ◌∙◌, Bool, true, false, Option, none, some, [],
}
use awstest.Booking.{failed, DeskServer}
use awstest.SeatHold.Views.{Server}
use awstest.Worker.Recounts.{ConcertShow}
use awstest.Worker.Concert.Tables.{
  ConcertBooking, ConcertTables, duplicate_key, Result, ok, find_ref,
}
use awstest.Worker.Concert.Job.{World, Task, pure, ◌>>=◌, ◌>>◌, catch, select, connect, rollback}
use awstest.Worker.Concert.Effects.{Request, Env, fail}
use awstest.Worker.Concert.Recovery.{owned, found_complete, poll_ok_from_db_if_complete}
use awstest.Worker.Concert.{
  Assigned, attempt_booking, after_integrity, after_error, round, rounds, process_concert_booking,
}
use awstest.Worker.Concert.Calm.{
  Calm, Gives, bind-Gives, next-Gives, next-Fails, catch-Fails, catch-Gives, select-Calm,
  connect-Calm, rollback-Calm,
}
use awstest.Worker.Concert.Settling.{fail-Settles}
use awstest.Worker.Concert.Taken.{Taken, attempt-taken}

module _ (r : DeskServer) (c : Server) (env : Env) (q : Request) (t : ConcertTables)
    (s : ConcertShow) (h : Taken q s t) where
  -- The active seats that the connection sees are those that are committed.
  abbrev Quietly : World r.Db c.Db → Type 0
  Quietly = Calm t (λ x. x.active ≡ t.active)

  -- The handler of the IntegrityError finds no booking with the reference, and stores DUPLICATE_SEAT.
  not_complete :
      (w : World r.Db c.Db)
      → Calm t (λ x. x ≡ t) w
      → Gives false (Calm t (λ x. x ≡ t)) (poll_ok_from_db_if_complete r c env q w)
  unfolding poll_ok_from_db_if_complete owned
  not_complete w p =
      let look =
        select (λ x. owned r c env q (find_ref q.booking_ref x.bookings) (x.shows q.show_id)) in
      let next : Option (ConcertBooking × ConcertShow) → Task r.Db c.Db Bool =
        λ o. elim o [ none ↦ pure false | some (b, s) ↦ found_complete r c env q b s ] in
      next-Gives (Gives false (Calm t (λ x. x ≡ t))) (Calm t (λ x. x ≡ t)) tt connect w
        (connect-Calm t (λ x. x ≡ t) w p) (catch (look >>= next) (λ e. pure false))
        λ v i.
          catch-Gives (Calm t (λ x. x ≡ t)) false (look >>= next) (λ e. pure false) v
            (bind-Gives (Gives false (Calm t (λ x. x ≡ t))) (Calm t (λ x. x ≡ t)) none look v
              (subst (λ o. Gives o (Calm t (λ x. x ≡ t)) (look v))
                (ap (λ x. owned r c env q (find_ref q.booking_ref x.bookings) (x.shows q.show_id))
                    i.seen
                  ∙ ap (λ o. owned r c env q o (t.shows q.show_id)) h.new_ref)
                (select-Calm t (λ x. x ≡ t) v i _))
              next (λ u j. (u, refl, j)))

  refused :
      (attempt : ℕ) (w : World r.Db c.Db)
      → Quietly w
      → Gives false (Calm t (λ x. x ≡ t)) (after_error r c env q attempt duplicate_key w)
  unfolding after_error after_integrity
  refused attempt w p =
      let T : ConcertTables → Type 0 = λ x. x ≡ t in
      let fails = fail r c env q (failed "DUPLICATE_SEAT" "") in
      let asks : Task r.Db c.Db (Unit {0}) =
        poll_ok_from_db_if_complete r c env q >>= λ b. elim b [ true ↦ pure tt | false ↦ fails ] in
      next-Gives (Gives false (Calm t T)) (Calm t T) tt (rollback >> asks) w
        (next-Gives (Gives tt (Calm t T)) (Calm t T) tt rollback w
          (rollback-Calm t (λ x. x.active ≡ t.active) w p) asks
          (λ v i.
            bind-Gives (Gives tt (Calm t T)) (Calm t T) false
              (poll_ok_from_db_if_complete r c env q) v (not_complete v i)
              (λ b. elim b [ true ↦ pure tt | false ↦ fails ])
              (fail-Settles r c env q t T (failed "DUPLICATE_SEAT" ""))))
        (pure false) (λ v i. (v, refl, i))

  round-taken :
      (new : Assigned) (attempt : ℕ) (w : World r.Db c.Db)
      → Calm t (λ x. Unit) w
      → Gives false (Calm t (λ x. Unit)) (round r c env q new attempt w)
  unfolding round
  round-taken new attempt w p =
      let books : Task r.Db c.Db Bool = attempt_booking r c env q new >> pure true in
      next-Gives (Gives false (Calm t (λ x. Unit))) (Calm t (λ x. x ≡ t)) tt connect w
        (connect-Calm t (λ x. Unit) w p) (catch books (after_error r c env q attempt))
        λ v i.
          catch-Fails (Gives false (Calm t (λ x. Unit))) Quietly duplicate_key books
            (after_error r c env q attempt) v
            (next-Fails Quietly duplicate_key (attempt_booking r c env q new) v
              (attempt-taken r c env q t s h new v i) (pure true))
            λ u j. forget (refused attempt u j)
    where
      forget :
          {x : Result Bool × World r.Db c.Db}
          → Gives false (Calm t (λ x. x ≡ t)) x
          → Gives false (Calm t (λ x. Unit)) x
      forget (v, e, i) = (
        v,
        e,
        record {
          statements = i.statements;
          requests = i.requests;
          committed = i.committed;
          seen = tt;
          stored = tt;
        },
      )

  rounds-taken :
      (new : ℕ → Assigned) (n attempt : ℕ) (w : World r.Db c.Db)
      → Calm t (λ x. Unit) w
      → Gives false (Calm t (λ x. Unit)) (rounds r c env q new n attempt w)
  unfolding rounds
  rounds-taken new zero attempt w p = (w, refl, p)
  rounds-taken new (suc n) attempt w p =
      bind-Gives (Gives false (Calm t (λ x. Unit))) (Calm t (λ x. Unit)) false
        (round r c env q (new attempt) attempt) w (round-taken (new attempt) attempt w p)
        (λ b. elim b [ true ↦ pure true | false ↦ rounds r c env q new n (suc attempt) ])
        (rounds-taken new n (suc attempt))

  -- If the tables refuse a request only since one of its seats is an active seat of the show (the
  -- show, the user and a new reference are given, the seats are in the hall), and no statement and
  -- no request to the booking database fails, then process_concert_booking has not returned after
  -- any number of rounds, and has changed no committed table.
  pub taken-never_returns :
      (new : ℕ → Assigned) (n : ℕ) (w : World r.Db c.Db)
      → w.committed ≡ t
      → w.statements ≡ []
      → w.desk_faults ≡ []
      → let o = process_concert_booking r c env q new n w in (o.0 ≡ ok false) × (o.1.committed ≡ t)
  unfolding process_concert_booking
  taken-never_returns new n w e st ds =
      let g =
        rounds-taken new n 1 w
          (record { statements = st; requests = ds; committed = e; seen = tt; stored = tt }) in
      (ap (λ x. x.0) g.1, ap (λ x. x.1.committed) g.1 ∙ g.2.committed)
