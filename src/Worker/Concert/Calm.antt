-- ===== src/Worker/Concert/Calm.antt =====
-- Runs of which no statement and no request to the booking database fails: what each step gives.
use awstest.Prelude.{◌≡◌, refl, sym, ap, subst, ◌∙◌, none, some, []}
use awstest.Redis.Program.{run}
use awstest.Redis.Returns.{run-Returns}
use awstest.Redis.Simulation.{result-run, faults-run_none}
use awstest.Booking.{DeskServer, Desk, on_desk as on_store}
use awstest.SeatHold.Views.{Server}
use awstest.Worker.{Work}
use awstest.Worker.Holds.Returning.{NeverRaises}
use awstest.Redis.Raising.Getting.{Gets}
use awstest.Worker.Concert.Tables.{ConcertTables, Raised, exception, Result, ok, raise}
use awstest.Worker.Concert.Job.{
  World, Task, then_do, ◌>>=◌, ◌>>◌, handle, catch, select, write, written, connect, commit,
  rollback, on_desk, on_cache, or_exception, sends,
}

module _ {D C : Type 0} where
  -- A step that returns, and what holds after it.
  abbrev pub Gives : {A : Type 0} → A → (World D C → Type 0) → Result A × World D C → Type 0
  Gives a P x = (v : World D C) × (x ≡ (ok a, v)) × P v

  abbrev pub Fails : {A : Type 0} → Raised → (World D C → Type 0) → Result A × World D C → Type 0
  Fails e P x = (v : World D C) × (x ≡ (raise e, v)) × P v

  module _ {A B : Type 0} (X : Result B × World D C → Type 0) (P : World D C → Type 0) (a : A)
      (m : Task D C A) (w : World D C) (h : Gives a P (m w)) where
    pub bind-Gives : (f : A → Task D C B) → ((v : World D C) → P v → X (f a v)) → X ((m >>= f) w)
    unfolding ◌>>=◌
    bind-Gives f g = subst (λ x. X (then_do f x)) (sym h.1) (g h.0 h.2)

    pub next-Gives : (n : Task D C B) → ((v : World D C) → P v → X (n v)) → X ((m >> n) w)
    unfolding ◌>>◌
    next-Gives n g = subst (λ x. X (then_do (λ _. n) x)) (sym h.1) (g h.0 h.2)

  module _ {A B : Type 0} (P : World D C → Type 0) (e : Raised) (m : Task D C A) (w : World D C)
      (h : Fails e P (m w)) where
    pub bind-Fails : (f : A → Task D C B) → Fails e P ((m >>= f) w)
    unfolding ◌>>=◌
    bind-Fails f = subst (λ x. Fails e P (then_do f x)) (sym h.1) (h.0, refl, h.2)

    pub next-Fails : (n : Task D C B) → Fails e P ((m >> n) w)
    unfolding ◌>>◌
    next-Fails n = subst (λ x. Fails e P (then_do (λ _. n) x)) (sym h.1) (h.0, refl, h.2)

  pub catch-Fails :
      {A : Type 0} (X : Result A × World D C → Type 0) (P : World D C → Type 0) (e : Raised)
      (m : Task D C A) (k : Raised → Task D C A) (w : World D C)
      → Fails e P (m w)
      → ((v : World D C) → P v → X (k e v))
      → X (catch m k w)
  unfolding catch
  catch-Fails X P e m k w h g = subst (λ x. X (handle k x)) (sym h.1) (g h.0 h.2)

  pub catch-Gives :
      {A : Type 0} (P : World D C → Type 0) (a : A) (m : Task D C A) (k : Raised → Task D C A)
      (w : World D C)
      → Gives a P (m w)
      → Gives a P (catch m k w)
  unfolding catch
  catch-Gives P a m k w h = subst (λ x. Gives a P (handle k x)) (sym h.1) (h.0, refl, h.2)

  -- Nothing fails from here on, and `t` is committed.
  pub record CalmAt (t : ConcertTables) (S : ConcertTables → Type 0) (F : D → Type 0)
      (w : World D C) : Type 0 where
    pub statements : w.statements ≡ []
    pub requests : w.desk_faults ≡ []
    pub committed : w.committed ≡ t
    pub seen : S w.tables
    pub stored : F w.desk

  abbrev pub Calm : ConcertTables → (ConcertTables → Type 0) → World D C → Type 0
  Calm t S = CalmAt t S (λ d. Unit)

  module _ {F : D → Type 0} (t : ConcertTables) (S : ConcertTables → Type 0) (w : World D C)
      (h : CalmAt t S F w) where
    pub select-Calm :
        {A : Type 0} (f : ConcertTables → A) → Gives (f w.tables) (CalmAt t S F) (select f w)
    unfolding select
    select-Calm f = (w, ap (λ fs. sends (λ w. (ok (f w.tables), w)) fs w) h.statements, h)

    pub connect-Calm : Gives tt (CalmAt t (λ x. x ≡ t) F) (connect w)
    unfolding connect
    connect-Calm = (
      record w { tables = w.committed },
      ap (λ fs. sends (λ w. (ok tt, record w { tables = w.committed })) fs w) h.statements,
      record {
        statements = h.statements;
        requests = h.requests;
        committed = h.committed;
        seen = h.committed;
        stored = h.stored;
      },
    )

    pub rollback-Calm : Gives tt (CalmAt t (λ x. x ≡ t) F) (rollback w)
    unfolding rollback
    rollback-Calm = (
      record w { tables = w.committed },
      refl,
      record {
        statements = h.statements;
        requests = h.requests;
        committed = h.committed;
        seen = h.committed;
        stored = h.stored;
      },
    )

    pub commit-Calm : w.tables ≡ t → Gives tt (CalmAt t S F) (commit w)
    unfolding commit
    commit-Calm e = (
      record w { committed = w.tables },
      ap (λ fs. sends (λ w. (ok tt, record w { committed = w.tables })) fs w) h.statements,
      record {
        statements = h.statements;
        requests = h.requests;
        committed = e;
        seen = h.seen;
        stored = h.stored;
      },
    )

    write_run : (f : ConcertTables → Result ConcertTables) → write f w ≡ written (f w.tables) w
    unfolding write
    write_run f = ap (λ fs. sends (λ w. written (f w.tables) w) fs w) h.statements

    pub write-Calm :
        (S' : ConcertTables → Type 0) (f : ConcertTables → Result ConcertTables) (u : ConcertTables)
        → f w.tables ≡ ok u
        → S' u
        → Gives tt (CalmAt t S' F) (write f w)
    write-Calm S' f u e s = (
      record w { tables = u },
      write_run f ∙ ap (λ x. written x w) e,
      record {
        statements = h.statements;
        requests = h.requests;
        committed = h.committed;
        seen = s;
        stored = h.stored;
      },
    )

    pub write-Fails :
        (f : ConcertTables → Result ConcertTables) (e : Raised)
        → f w.tables ≡ raise e
        → Fails e (CalmAt t S F) (write f w)
    write-Fails f e p = (w, write_run f ∙ ap (λ x. written x w) p, h)

module _ (r : DeskServer) (c : Server) {F : r.Db → Type 0} (t : ConcertTables)
    (S : ConcertTables → Type 0) (w : World r.Db c.Db) (h : CalmAt t S F w) where
  pub on_desk-Calm :
      {A : Type 0} (G : r.Db → Type 0) (m : Desk A) (a : A)
      → (on_store m [] (r.look w.desk)).result ≡ some a
      → G (run r m w.desk_faults w.desk).db
      → Gives a (CalmAt t S G) (on_desk r c m w)
  unfolding on_desk
  on_desk-Calm G m a p g =
      let o = run r m w.desk_faults w.desk in
      let same = result-run r m [] w.desk in
      (
        record w { desk = o.db; desk_faults = o.faults },
        ap (λ x. (or_exception x, record w { desk = o.db; desk_faults = o.faults }))
            (ap (λ fs. (run r m fs w.desk).result) h.requests ∙ same ∙ p),
        record {
          statements = h.statements;
          requests = ap (λ fs. (run r m fs w.desk).faults) h.requests ∙ faults-run_none r m w.desk;
          committed = h.committed;
          seen = h.seen;
          stored = g;
        },
      )

  pub on_desk-Fails :
      {A : Type 0} (m : Desk A)
      → (on_store m [] (r.look w.desk)).result ≡ none
      → Fails exception (CalmAt t S (λ d. Unit)) (on_desk r c m w)
  unfolding on_desk
  on_desk-Fails m p =
      let o = run r m w.desk_faults w.desk in
      (
        record w { desk = o.db; desk_faults = o.faults },
        ap (λ x. (or_exception x, record w { desk = o.db; desk_faults = o.faults }))
            (ap (λ fs. (run r m fs w.desk).result) h.requests ∙ result-run r m [] w.desk ∙ p),
        record {
          statements = h.statements;
          requests = ap (λ fs. (run r m fs w.desk).faults) h.requests ∙ faults-run_none r m w.desk;
          committed = h.committed;
          seen = h.seen;
          stored = tt;
        },
      )

  pub on_cache-Calm :
      {A : Type 0} (m : Work A)
      → NeverRaises m
      → (a : A) × Gives a (CalmAt t S F) (on_cache r c m w)
  unfolding on_cache
  on_cache-Calm {A = A} m p =
      let o = run c m w.cache_faults w.cache in
      let back = run-Returns c Gets m w.cache_faults w.cache p in
      (
        back.0,
        (
          record w { cache = o.db; cache_faults = o.faults },
          ap (λ x. (or_exception x, record w { cache = o.db; cache_faults = o.faults })) back.1,
          record {
            statements = h.statements;
            requests = h.requests;
            committed = h.committed;
            seen = h.seen;
            stored = h.stored;
          },
        ),
      )
