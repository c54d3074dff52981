-- ===== src/Worker/Concert/Triples.antt =====
-- Where a program of `Job` ends, by a return or by an exception, and rules to derive it. The programs
-- that commit nothing keep every statement on what is committed.
use awstest.Prelude.{Bool, true, false, Option, none, some, List, [], ◌∷◌, map, if◌then◌else◌}
use awstest.Redis.Program.{run}
use awstest.Booking.{Desk, DeskServer}
use awstest.SeatHold.Views.{Server}
use awstest.Worker.{Work}
use awstest.Worker.Concert.Tables.{
  ConcertBooking, ConcertSeat, ConcertPayment, ConcertTables, Raised, Result, ok, raise,
}
use awstest.Worker.Concert.Job.{
  World, Task, pure, throw, then_do, ◌>>=◌, ◌>>◌, handle, catch, select, connect, rollback, on_desk,
  on_cache, or_exception, sends, Failures,
}

module _ {D C : Type 0} where
  pub data Ends {A : Type 0} (Q : A → World D C → Type 0) (E : World D C → Type 0)
      : Result A × World D C → Type 0 where
    ends : {a : A} {w : World D C} → Q a w → Ends Q E (ok a, w)
    raises : {e : Raised} {w : World D C} → E w → Ends Q E (raise e, w)

  abbrev pub Triple :
      {A : Type 0}
      → (World D C → Type 0)
      → Task D C A
      → (A → World D C → Type 0)
      → (World D C → Type 0)
      → Type 0
  Triple P m Q E = (w : World D C) → P w → Ends Q E (m w)

  module _ {A B : Type 0} (P : World D C → Type 0) (Q : A → World D C → Type 0)
      (R : B → World D C → Type 0) (E : World D C → Type 0) where
    then-Ends :
        (f : A → Task D C B) (x : Result A × World D C)
        → Ends Q E x
        → ((a : A) → Triple (Q a) (f a) R E)
        → Ends R E (then_do f x)
    then-Ends f (ok a, w) (ends h) g = g a w h
    then-Ends f (raise e, w) (raises h) g = raises h

    pub bind-Triple :
        (m : Task D C A) (f : A → Task D C B)
        → Triple P m Q E
        → ((a : A) → Triple (Q a) (f a) R E)
        → Triple P (m >>= f) R E
    unfolding ◌>>=◌
    bind-Triple m f h g w p = then-Ends f (m w) (h w p) g

    pub next-Triple :
        (m : Task D C A) (n : Task D C B)
        → Triple P m Q E
        → ((a : A) → Triple (Q a) n R E)
        → Triple P (m >> n) R E
    unfolding ◌>>◌
    next-Triple m n h g w p = then-Ends (λ _. n) (m w) (h w p) g

  module _ {A : Type 0} (P : World D C → Type 0) (Q : A → World D C → Type 0)
      (E F : World D C → Type 0) where
    handle-Ends :
        (h : Raised → Task D C A) (x : Result A × World D C)
        → Ends Q E x
        → ((e : Raised) → Triple E (h e) Q F)
        → Ends Q F (handle h x)
    handle-Ends h (ok a, w) (ends p) g = ends p
    handle-Ends h (raise e, w) (raises p) g = g e w p

    pub catch-Triple :
        (m : Task D C A) (h : Raised → Task D C A)
        → Triple P m Q E
        → ((e : Raised) → Triple E (h e) Q F)
        → Triple P (catch m h) Q F
    unfolding catch
    catch-Triple m h p g w i = handle-Ends h (m w) (p w i) g

  pub sends-Ends :
      {A : Type 0} (Q : A → World D C → Type 0) (E : World D C → Type 0)
      (f : World D C → Result A × World D C) (fs : Failures) (w : World D C)
      → ((gs : Failures) → Ends Q E (f (record w { statements = gs })))
      → Ends Q E (f w)
      → ((gs : Failures) → E (record w { statements = gs }))
      → Ends Q E (sends f fs w)
  sends-Ends Q E f [] w h now e = now
  sends-Ends Q E f (none ∷ fs) w h now e = h fs
  sends-Ends Q E f (some x ∷ fs) w h now e = raises (e fs)

  pub weaken :
      {A : Type 0} (P : World D C → Type 0) (Q Q' : A → World D C → Type 0)
      (E E' : World D C → Type 0) (m : Task D C A)
      → Triple P m Q E
      → ((a : A) (w : World D C) → Q a w → Q' a w)
      → ((w : World D C) → E w → E' w)
      → Triple P m Q' E'
  weaken {A = A} P Q Q' E E' m h f g w p = weaker (m w) (h w p)
    where
      weaker : (x : Result A × World D C) → Ends Q E x → Ends Q' E' x
      weaker (ok a, w) (ends q) = ends (f a w q)
      weaker (raise e, w) (raises q) = raises (g w q)

-- The bookings without their codes, the active seats, and the payments.
pub record Frame : Type 0 where
  pub lines : List ConcertBooking
  pub active : List ConcertSeat
  pub payments : List ConcertPayment

abbrev pub line_of : ConcertBooking → ConcertBooking
line_of b = record b { booking_code = none }

abbrev pub frame_of : ConcertTables → Frame
frame_of t = record { lines = map line_of t.bookings; active = t.active; payments = t.payments }

module _ {D C : Type 0} (R : Frame → Type 0) where
  abbrev pub Committed : World D C → Type 0
  Committed w = R (frame_of w.committed)

  abbrev pub Quiet : {A : Type 0} → Task D C A → Type 0
  Quiet m = Triple Committed m (λ a. Committed) Committed

  pub pure-Quiet : {A : Type 0} (a : A) → Quiet (pure a)
  pure-Quiet a w p = ends p

  throw-Quiet : {A : Type 0} (e : Raised) → Quiet (throw {A = A} e)
  throw-Quiet e w p = raises p

  pub select-Quiet : {A : Type 0} (f : ConcertTables → A) → Quiet (select f)
  unfolding select
  select-Quiet f w p =
      sends-Ends (λ a. Committed) Committed _ w.statements w (λ gs. ends p) (ends p) (λ gs. p)

  pub connect-Quiet : Quiet connect
  unfolding connect
  connect-Quiet w p =
      sends-Ends (λ a. Committed) Committed _ w.statements w (λ gs. ends p) (ends p) (λ gs. p)

  pub rollback-Quiet : Quiet rollback
  unfolding rollback
  rollback-Quiet w p = ends p

  module _ {A B : Type 0} where
    pub bind-Quiet :
        (m : Task D C A) (f : A → Task D C B) → Quiet m → ((a : A) → Quiet (f a)) → Quiet (m >>= f)
    bind-Quiet m f = bind-Triple Committed (λ a. Committed) (λ a. Committed) Committed m f

    pub next-Quiet : (m : Task D C A) (n : Task D C B) → Quiet m → Quiet n → Quiet (m >> n)
    next-Quiet m n h g =
        next-Triple Committed (λ a. Committed) (λ a. Committed) Committed m n h (λ a. g)

  pub catch-Quiet :
      {A : Type 0} (m : Task D C A) (h : Raised → Task D C A)
      → Quiet m
      → ((e : Raised) → Quiet (h e))
      → Quiet (catch m h)
  catch-Quiet m h = catch-Triple Committed (λ a. Committed) Committed Committed m h

  pub if-Quiet :
      {A : Type 0} (b : Bool) (m n : Task D C A) → Quiet m → Quiet n → Quiet (if b then m else n)
  if-Quiet true m n h g = h
  if-Quiet false m n h g = g

  pub elim-Quiet :
      {A : Type 0} (b : Bool) (m n : Task D C A)
      → Quiet m
      → Quiet n
      → Quiet (elim b [ true ↦ m | false ↦ n ])
  elim-Quiet true m n h g = h
  elim-Quiet false m n h g = g

abbrev pub Both : {D C : Type 0} → (ConcertTables → ConcertTables → Type 0) → World D C → Type 0
Both P w = P w.tables w.committed

-- Redis programs leave the connection alone.
module _ (r : DeskServer) (c : Server) {A : Type 0}
    (P : ConcertTables → ConcertTables → Type 0) where
  answered :
      (o : Option A) (w : World r.Db c.Db)
      → Both P w
      → Ends (λ a. Both P) (Both P) (or_exception o, w)
  answered none w p = raises p
  answered (some a) w p = ends p

  pub on_desk-Both : (m : Desk A) → Triple (Both P) (on_desk r c m) (λ a. Both P) (Both P)
  unfolding on_desk
  on_desk-Both m w p =
      let o = run r m w.desk_faults w.desk in
      answered o.result (record w { desk = o.db; desk_faults = o.faults }) p

  pub on_cache-Both : (m : Work A) → Triple (Both P) (on_cache r c m) (λ a. Both P) (Both P)
  unfolding on_cache
  on_cache-Both m w p =
      let o = run c m w.cache_faults w.cache in
      answered o.result (record w { cache = o.db; cache_faults = o.faults }) p
