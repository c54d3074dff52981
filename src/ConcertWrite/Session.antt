-- ===== src/ConcertWrite/Session.antt =====
-- Programs over the three databases. What was written stays when an exception is raised.
use awstest.Prelude.{Option, none, some}
use awstest.Redis.Program.{Faults, run}
use awstest.Cache.Safe.{Cached}
use awstest.SeatHold.Views.{Server}
use awstest.Booking.{Desk, DeskServer}
use awstest.WaitingRoom.{Room}
use awstest.WaitingRoom.Gate.Polls.{RoomServer}

pub record Servers : Type 1 where
  pub room : RoomServer
  pub desk : DeskServer
  pub cache : Server

pub record World (s : Servers) : Type 0 where
  pub room : s.room.Db
  pub room_faults : Faults
  pub desk : s.desk.Db
  pub desk_faults : Faults
  pub cache : s.cache.Db
  pub cache_faults : Faults

-- `none` is an exception.
abbrev pub Visit : Servers → Type 0 → Type 0
Visit s A = World s → Option A × World s

module _ {s : Servers} where
  abbrev pub pure : {A : Type 0} → A → Visit s A
  pure a w = (some a, w)

  abbrev pub raise : {A : Type 0} → Visit s A
  raise w = (none, w)

  abbrev pub then_do : {A B : Type 0} → (A → Visit s B) → Option A × World s → Option B × World s
  then_do f (some a, w) = f a w
  then_do f (none, w) = (none, w)

  infixl 5 ◌>>=◌ ◌>>◌
  unfoldable pub ◌>>=◌ : {A B : Type 0} → Visit s A → (A → Visit s B) → Visit s B
  (m >>= f) w = then_do f (m w)

  unfoldable pub ◌>>◌ : {A B : Type 0} → Visit s A → Visit s B → Visit s B
  (m >> n) w = then_do (λ _. n) (m w)

  abbrev pub or_value : {A : Type 0} → A → Option A × World s → Option A × World s
  or_value a (some b, w) = (some b, w)
  or_value a (none, w) = (some a, w)

  -- try m except: a
  unfoldable pub attempt_or : {A : Type 0} → Visit s A → A → Visit s A
  attempt_or m a w = or_value a (m w)

  abbrev pub raised_after : {A B : Type 0} → Option B × World s → Option A × World s
  raised_after (o, w) = (none, w)

  abbrev pub undone : {A : Type 0} → Visit s (Unit {0}) → Option A × World s → Option A × World s
  undone n (some a, w) = (some a, w)
  undone n (none, w) = raised_after (n w)

  -- try m except: n; raise
  unfoldable pub or_undo : {A : Type 0} → Visit s A → Visit s (Unit {0}) → Visit s A
  or_undo m n w = undone n (m w)

module _ (s : Servers) {A : Type 0} where
  unfoldable pub on_room : Room A → Visit s A
  on_room m w =
      let o = run s.room m w.room_faults w.room in
      (o.result, record w { room = o.db; room_faults = o.faults })

  unfoldable pub on_desk : Desk A → Visit s A
  on_desk m w =
      let o = run s.desk m w.desk_faults w.desk in
      (o.result, record w { desk = o.db; desk_faults = o.faults })

  -- The client of the read cache does not raise.
  unfoldable pub on_cache : Cached A → Visit s A
  on_cache m w =
      let o = run s.cache m w.cache_faults w.cache in
      (some o.result, record w { cache = o.db; cache_faults = o.faults })
