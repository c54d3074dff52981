-- ===== src/Worker/Concert/Deadlocks.antt =====
-- A deadlock is tried again, WORKER_DB_DEADLOCK_RETRIES times in all.
use awstest.Prelude.{
  ℕ, zero, suc, ◌+◌, ◌≡◌, refl, sym, ap, subst, ◌∙◌, Bool, true, false, none, some, [], ◌∷◌, ltb,
  arith, if◌then◌else◌,
}
use awstest.Booking.{failed, DeskServer}
use awstest.SeatHold.Views.{Server}
use awstest.Worker.Concert.Tables.{ConcertTables, deadlock, ok}
use awstest.Worker.Concert.Job.{
  World, Failures, pure, ◌>>◌, catch, select, connect, rollback, sends,
}
use awstest.Worker.Concert.Effects.{Request, Env, Here, fail}
use awstest.Worker.Concert.{
  Assigned, with_show, attempt_booking, give_up, after_error, round, rounds,
  process_concert_booking,
}
use awstest.Worker.Concert.Calm.{
  Calm, Gives, Fails, bind-Gives, bind-Fails, next-Gives, next-Fails, catch-Fails,
}
use awstest.Worker.Concert.Settling.{fail-Settles}

-- Each connection is made, and its first statement is a deadlock.
unfoldable pub deadlocked : ℕ → Failures
deadlocked zero = []
deadlocked (suc k) = none ∷ some deadlock ∷ deadlocked k

module _ (r : DeskServer) (c : Server) (env : Env) (q : Request) (t : ConcertTables) where
  abbrev Facing : Failures → World r.Db c.Db → Type 0
  Facing fs w = (w.statements ≡ fs) × (w.desk_faults ≡ []) × (w.committed ≡ t)

  connects :
      (fs : Failures) (w : World r.Db c.Db)
      → Facing (none ∷ fs) w
      → Gives tt (Facing fs) (connect w)
  unfolding connect
  connects fs w p = (
    record w { tables = w.committed; statements = fs },
    ap (λ gs. sends (λ w. (ok tt, record w { tables = w.committed })) gs w) p.0,
    (refl, p.1, p.2),
  )

  attempt-deadlocked :
      (new : Assigned) (fs : Failures) (w : World r.Db c.Db)
      → Facing (some deadlock ∷ fs) w
      → Fails deadlock (Facing fs) (attempt_booking r c env q new w)
  unfolding attempt_booking select
  attempt-deadlocked new fs w p =
      bind-Fails (Facing fs) deadlock (select (λ t. t.shows q.show_id)) w
        (
          record w { statements = fs },
          ap (λ gs. sends (λ w. (ok (w.tables.shows q.show_id), w)) gs w) p.0,
          (refl, p.1, p.2),
        )
        (with_show r c env q new)

  -- The except branch: again, or the failure is stored.
  retries :
      (attempt : ℕ) (fs : Failures) (w : World r.Db c.Db)
      → ltb attempt env.tries ≡ true
      → Facing fs w
      → Gives false (Facing fs) (after_error r c env q attempt deadlock w)
  unfolding after_error give_up ◌>>◌ rollback
  retries attempt fs w e p = (
    record w { tables = w.committed },
    ap
        (λ (x : Bool).
          (if x then pure false else (give_up r c env q deadlock >> pure true))
            (record w { tables = w.committed }))
        e,
    p,
  )

  gives_up :
      (attempt : ℕ) (w : World r.Db c.Db)
      → ltb attempt env.tries ≡ false
      → Facing [] w
      → Gives true (Facing []) (after_error r c env q attempt deadlock w)
  unfolding after_error give_up ◌>>◌ rollback
  gives_up attempt w e p =
      subst
        (λ (x : Bool). Gives true (Facing []) (
          (if x then pure false else (give_up r c env q deadlock >> pure true))
            (record w { tables = w.committed })))
        (sym e)
        (next-Gives (Gives true (Facing [])) (Calm t (λ x. Unit)) tt
          (fail r c env q (failed "ERROR" (env.message deadlock)))
          (record w { tables = w.committed })
          (fail-Settles r c env q t (λ x. Unit) (failed "ERROR" (env.message deadlock))
            (record w { tables = w.committed })
            (record { statements = p.0; requests = p.1; committed = p.2; seen = tt; stored = tt }))
          (pure true) (λ v i. (v, refl, (i.statements, i.requests, i.committed))))

  round-deadlocked :
      (new : Assigned) (attempt : ℕ) (fs : Failures) (again : Bool) (w : World r.Db c.Db)
      → Facing (none ∷ some deadlock ∷ fs) w
      → ((v : World r.Db c.Db)
          → Facing fs v
          → Gives again (Facing fs) (after_error r c env q attempt deadlock v))
      → Gives again (Facing fs) (round r c env q new attempt w)
  unfolding round
  round-deadlocked new attempt fs again w p h =
      let books : Here r c Bool = attempt_booking r c env q new >> pure true in
      next-Gives (Gives again (Facing fs)) (Facing (some deadlock ∷ fs)) tt connect w
        (connects (some deadlock ∷ fs) w p) (catch books (after_error r c env q attempt))
        λ v i.
          catch-Fails (Gives again (Facing fs)) (Facing fs) deadlock books
            (after_error r c env q attempt) v
            (next-Fails (Facing fs) deadlock (attempt_booking r c env q new) v
              (attempt-deadlocked new fs v i) (pure true))
            h

  rounds-deadlocked :
      (new : ℕ → Assigned) (k m n attempt : ℕ) (w : World r.Db c.Db)
      → k + m ≡ n
      → attempt + k ≡ env.tries
      → Facing (deadlocked (suc k)) w
      → Gives true (Facing []) (rounds r c env q new (suc n) attempt w)
  unfolding rounds deadlocked
  rounds-deadlocked new zero m n attempt w l e p =
      bind-Gives (Gives true (Facing [])) (Facing []) true (round r c env q (new attempt) attempt) w
        (round-deadlocked (new attempt) attempt [] true w p
          (λ v i. gives_up attempt v (ground (arith, e)) i))
        (λ b. elim b [ true ↦ pure true | false ↦ rounds r c env q new n (suc attempt) ])
        (λ v i. (v, refl, i))
  rounds-deadlocked new (suc k) m zero attempt w l e p = absurd (omega (arith, l))
  rounds-deadlocked new (suc k) m (suc n) attempt w l e p =
      bind-Gives (Gives true (Facing [])) (Facing (deadlocked (suc k))) false
        (round r c env q (new attempt) attempt) w
        (round-deadlocked (new attempt) attempt (deadlocked (suc k)) false w p
          (λ v i. retries attempt (deadlocked (suc k)) v (ground (arith, e)) i))
        (λ b. elim b [ true ↦ pure true | false ↦ rounds r c env q new (suc n) (suc attempt) ])
        (λ v i. rounds-deadlocked new k m n (suc attempt) v (omega (arith, l)) (omega (arith, e)) i)

  -- If each of the attempts (as many as WORKER_DB_DEADLOCK_RETRIES, at least one) gets its
  -- connection and its first statement ends in a deadlock, and no later statement and no request to
  -- the booking database fails, then process_concert_booking returns within that many rounds and
  -- changes no committed table.
  pub deadlocks-give_up :
      (new : ℕ → Assigned) (k m : ℕ) (w : World r.Db c.Db)
      → env.tries ≡ suc k
      → w.statements ≡ deadlocked (suc k)
      → w.desk_faults ≡ []
      → w.committed ≡ t
      → let o = process_concert_booking r c env q new (suc (k + m)) w in
        (o.0 ≡ ok true) × (o.1.committed ≡ t)
  unfolding process_concert_booking
  deadlocks-give_up new k m w n st ds e =
      let g = rounds-deadlocked new k m (k + m) 1 w refl (omega (arith, n)) (st, ds, e) in
      (ap (λ x. x.0) g.1, ap (λ x. x.1.committed) g.1 ∙ g.2.2)
