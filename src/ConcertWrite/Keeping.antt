-- ===== src/ConcertWrite/Keeping.antt =====
-- Rules on what a program over the three databases ends with, by a return or by an exception.
use awstest.Prelude.{Bool, true, false, Option, none, some, if◌then◌else◌}
use awstest.Redis.Program.{run, Faults}
use awstest.Booking.{Desk}
use awstest.WaitingRoom.{Room}
use awstest.ConcertWrite.Session.{
  Servers, World, Visit, then_do, ◌>>=◌, ◌>>◌, or_value, attempt_or, raised_after, undone, or_undo,
  on_room, on_desk,
}

module _ {s : Servers} where
  abbrev pub Post :
      {A : Type 0} → (A → World s → Type 0) → (World s → Type 0) → Option A × World s → Type 0
  Post Q E (some a, w) = Q a w
  Post Q E (none, w) = E w

  abbrev pub Ends :
      {A : Type 0}
      → (World s → Type 0)
      → Visit s A
      → (A → World s → Type 0)
      → (World s → Type 0)
      → Type 0
  Ends P m Q E = (w : World s) → P w → Post Q E (m w)

  -- The same before and after.
  abbrev pub Keeps : {A : Type 0} → (World s → Type 0) → Visit s A → Type 0
  Keeps P m = Ends P m (λ a. P) P

  module _ {A B : Type 0} (P : World s → Type 0) (Q : A → World s → Type 0)
      (R : B → World s → Type 0) (E : World s → Type 0) where
    then-Post :
        (f : A → Visit s B) (x : Option A × World s)
        → Post Q E x
        → ((a : A) → Ends (Q a) (f a) R E)
        → Post R E (then_do f x)
    then-Post f (some a, w) h g = g a w h
    then-Post f (none, w) h g = h

    pub bind-Ends :
        (m : Visit s A) (f : A → Visit s B)
        → Ends P m Q E
        → ((a : A) → Ends (Q a) (f a) R E)
        → Ends P (m >>= f) R E
    unfolding ◌>>=◌
    bind-Ends m f h g w p = then-Post f (m w) (h w p) g

    pub next-Ends :
        (m : Visit s A) (n : Visit s B)
        → Ends P m Q E
        → ((a : A) → Ends (Q a) n R E)
        → Ends P (m >> n) R E
    unfolding ◌>>◌
    next-Ends m n h g w p = then-Post (λ _. n) (m w) (h w p) g

  after-Post :
      (A : Type 0) {B : Type 0} (P : World s → Type 0) (x : Option B × World s)
      → Post (λ b. P) P x
      → Post {A = A} (λ a. P) P (raised_after x)
  after-Post A P (some b, w) h = h
  after-Post A P (none, w) h = h

  module _ {A : Type 0} (P : World s → Type 0) where
    or_value-Post :
        (a : A) (x : Option A × World s) → Post (λ b. P) P x → Post (λ b. P) P (or_value a x)
    or_value-Post a (some b, w) h = h
    or_value-Post a (none, w) h = h

    pub attempt-Keeps : (m : Visit s A) (a : A) → Keeps P m → Keeps P (attempt_or m a)
    unfolding attempt_or
    attempt-Keeps m a h w p = or_value-Post a (m w) (h w p)

    undone-Post :
        (n : Visit s (Unit {0})) (x : Option A × World s)
        → Keeps P n
        → Post (λ a. P) P x
        → Post (λ a. P) P (undone n x)
    undone-Post n (some a, w) g h = h
    undone-Post n (none, w) g h = after-Post A P (n w) (g w h)

    pub or_undo-Keeps :
        (m : Visit s A) (n : Visit s (Unit {0})) → Keeps P m → Keeps P n → Keeps P (or_undo m n)
    unfolding or_undo
    or_undo-Keeps m n h g w p = undone-Post n (m w) g (h w p)

    raised-Post :
        {B : Type 0} (Q : A → World s → Type 0) (x : Option B × World s)
        → Post Q (λ w. Unit) (raised_after x)
    raised-Post Q (some b, w) = tt
    raised-Post Q (none, w) = tt

    -- What undoes runs before the exception goes on.
    pub or_undo-Ends :
        (Q : A → World s → Type 0) (m : Visit s A) (n : Visit s (Unit {0}))
        → Ends P m Q (λ w. Unit)
        → Ends P (or_undo m n) Q (λ w. Unit)
    unfolding or_undo
    or_undo-Ends Q m n h w p = undoes (m w) (h w p)
      where
        undoes : (x : Option A × World s) → Post Q (λ w. Unit) x → Post Q (λ w. Unit) (undone n x)
        undoes (some a, v) i = i
        undoes (none, v) i = raised-Post Q (n v)

    pub if-Keeps :
        (b : Bool) (m n : Visit s A) → Keeps P m → Keeps P n → Keeps P (if b then m else n)
    if-Keeps true m n h g = h
    if-Keeps false m n h g = g

    -- However it ends.
    pub either-Post : (x : Option A × World s) → Post (λ a. P) P x → P x.1
    either-Post (some a, w) h = h
    either-Post (none, w) h = h

    returned-Post : (o : Option A) (w : World s) → P w → Post (λ a. P) P (o, w)
    returned-Post none w p = p
    returned-Post (some a) w p = p

  module _ {A B : Type 0} (P : World s → Type 0) where
    pub bind-Keeps :
        (m : Visit s A) (f : A → Visit s B)
        → Keeps P m
        → ((a : A) → Keeps P (f a))
        → Keeps P (m >>= f)
    bind-Keeps m f = bind-Ends P (λ a. P) (λ b. P) P m f

    pub next-Keeps : (m : Visit s A) (n : Visit s B) → Keeps P m → Keeps P n → Keeps P (m >> n)
    next-Keeps m n h g = next-Ends P (λ a. P) (λ b. P) P m n h (λ a. g)

module _ (s : Servers) (P : s.cache.Db → Faults → Type 0) where
  -- Of the cache and its failures only.
  abbrev OfCache : World s → Type 0
  OfCache w = P w.cache w.cache_faults

  pub on_room-Keeps : {A : Type 0} (m : Room A) → Keeps OfCache (on_room s m)
  unfolding on_room
  on_room-Keeps m w p =
      let o = run s.room m w.room_faults w.room in
      returned-Post OfCache o.result (record w { room = o.db; room_faults = o.faults }) p

  pub on_desk-Keeps : {A : Type 0} (m : Desk A) → Keeps OfCache (on_desk s m)
  unfolding on_desk
  on_desk-Keeps m w p =
      let o = run s.desk m w.desk_faults w.desk in
      returned-Post OfCache o.result (record w { desk = o.db; desk_faults = o.faults }) p
