-- ===== src/Worker/Concert/Job.antt =====
-- What a concert booking works on, and programs that raise: the connection to MySQL with its
-- transaction, the booking database and the read cache. What was written stays when an exception is
-- raised; ROLLBACK, which is taken not to fail, brings back what was committed.
use awstest.Prelude.{Option, none, some, List, [], ◌∷◌}
use awstest.Redis.Program.{Faults, run}
use awstest.Booking.{Desk, DeskServer}
use awstest.SeatHold.Views.{Server}
use awstest.Worker.{Work}
use awstest.Worker.Concert.Tables.{ConcertTables, Raised, exception, Result, ok, raise}

-- How the next statement of MySQL ends, whatever it does: `none` if nothing is wrong with it.
abbrev pub Failures : Type 0
Failures = List (Option Raised)

pub record World (D C : Type 0) : Type 0 where
  -- as this connection sees them, and as committed
  pub tables : ConcertTables
  pub committed : ConcertTables
  pub statements : Failures
  pub desk : D
  pub desk_faults : Faults
  pub cache : C
  pub cache_faults : Faults

abbrev pub Task : Type 0 → Type 0 → Type 0 → Type 0
Task D C A = World D C → Result A × World D C

module _ {D C : Type 0} where
  abbrev pub pure : {A : Type 0} → A → Task D C A
  pure a w = (ok a, w)

  abbrev pub throw : {A : Type 0} → Raised → Task D C A
  throw e w = (raise e, w)

  abbrev pub then_do :
      {A B : Type 0} → (A → Task D C B) → Result A × World D C → Result B × World D C
  then_do f (ok a, w) = f a w
  then_do f (raise e, w) = (raise e, w)

  infixl 5 ◌>>=◌ ◌>>◌
  unfoldable pub ◌>>=◌ : {A B : Type 0} → Task D C A → (A → Task D C B) → Task D C B
  (m >>= f) w = then_do f (m w)

  unfoldable pub ◌>>◌ : {A B : Type 0} → Task D C A → Task D C B → Task D C B
  (m >> n) w = then_do (λ _. n) (m w)

  abbrev pub handle :
      {A : Type 0} → (Raised → Task D C A) → Result A × World D C → Result A × World D C
  handle h (ok a, w) = (ok a, w)
  handle h (raise e, w) = h e w

  -- try m except e: h e
  unfoldable pub catch : {A : Type 0} → Task D C A → (Raised → Task D C A) → Task D C A
  catch m h w = handle h (m w)

  -- One statement: the next failure is its own.
  abbrev pub sends :
      {A : Type 0}
      → (World D C → Result A × World D C)
      → Failures
      → World D C
      → Result A × World D C
  sends f [] w = f w
  sends f (none ∷ fs) w = f (record w { statements = fs })
  sends f (some e ∷ fs) w = (raise e, record w { statements = fs })

  unfoldable pub select : {A : Type 0} → (ConcertTables → A) → Task D C A
  select f w = sends (λ w. (ok (f w.tables), w)) w.statements w

  abbrev pub written : Result ConcertTables → World D C → Result (Unit {0}) × World D C
  written (ok t) w = (ok tt, record w { tables = t })
  written (raise e) w = (raise e, w)

  unfoldable pub write : (ConcertTables → Result ConcertTables) → Task D C (Unit {0})
  write f w = sends (λ w. written (f w.tables) w) w.statements w

  -- A new connection sees what is committed.
  unfoldable pub connect : Task D C (Unit {0})
  connect w = sends (λ w. (ok tt, record w { tables = w.committed })) w.statements w

  unfoldable pub commit : Task D C (Unit {0})
  commit w = sends (λ w. (ok tt, record w { committed = w.tables })) w.statements w

  unfoldable pub rollback : Task D C (Unit {0})
  rollback w = (ok tt, record w { tables = w.committed })

-- redis-py's exceptions are neither OperationalError nor IntegrityError.
abbrev pub or_exception : {A : Type 0} → Option A → Result A
or_exception none = raise exception
or_exception (some a) = ok a

module _ (r : DeskServer) (c : Server) where
  unfoldable pub on_desk : {A : Type 0} → Desk A → Task r.Db c.Db A
  on_desk m w =
      let o = run r m w.desk_faults w.desk in
      (or_exception o.result, record w { desk = o.db; desk_faults = o.faults })

  unfoldable pub on_cache : {A : Type 0} → Work A → Task r.Db c.Db A
  on_cache m w =
      let o = run c m w.cache_faults w.cache in
      (or_exception o.result, record w { cache = o.db; cache_faults = o.faults })
