-- ===== src/Worker/Theater/Balance.antt =====
-- The seats of a schedule are sold or remain: the sum is kept, whatever statements fail.
use awstest.Prelude.{
  ℕ, suc, ◌+◌, ◌-◌, ◌≡◌, refl, sym, ap, ◌∙◌, String, Bool, true, false, Option, none, some, List,
  [], ◌∷◌, length, ◌==◌, arith, if◌then◌else◌,
}
use awstest.Redis.Program.{Faults}
use awstest.Cache.{Seat}
use awstest.Worker.Tables.{
  Schedule, SeatRow, Tables, Answer, done, integrity, error, Tx, then_do, ◌>>=◌, ◌>>◌, give, sends,
  enough, on_row, with_schedule, select_schedule, select_seat, take_remain, close_schedule,
  insert_booking, update_code, insert_seat, insert_payment,
}
use awstest.Worker.Theater.{choose_code, insert_seats, close_if_empty}

unfoldable pub sold : ℕ → List SeatRow → ℕ
sold id [] = 0
sold id (r ∷ rs) = if r.schedule_id == id then suc (sold id rs) else sold id rs

-- `k` seats of the schedule `id` are neither sold nor remain.
unfoldable pub Off : ℕ → ℕ → Tables → Type 0
Off id k t =
    (j : ℕ) (s : Schedule)
    → t.schedules j ≡ some s
    → s.remain_count + sold j t.active + (if j == id then k else 0) ≡ s.total_count

-- Every seat of every schedule is sold or remains.
abbrev pub Balanced : Tables → Type 0
Balanced t =
    (j : ℕ) (s : Schedule)
    → t.schedules j ≡ some s
    → s.remain_count + sold j t.active ≡ s.total_count

pub data Gives {A : Type 0} (Q : A → Tables → Type 0) : Answer A → Type 0 where
  gives : {a : A} {t : Tables} {fs : Faults} → Q a t → Gives Q (done a t fs)
  breaks : {fs : Faults} → Gives Q (integrity fs)
  fails : Gives Q error

abbrev pub Triple : {A : Type 0} → (Tables → Type 0) → Tx A → (A → Tables → Type 0) → Type 0
Triple P m Q = (t : Tables) (fs : Faults) → P t → Gives Q (m t fs)

pub if_gives :
    {A : Type 0} {Q : A → Tables → Type 0} (b : Bool) (x y : Answer A)
    → Gives Q x
    → Gives Q y
    → Gives Q (if b then x else y)
if_gives true x y h g = h
if_gives false x y h g = g

module _ {A B : Type 0} (P : Tables → Type 0) (Q : A → Tables → Type 0)
    (R : B → Tables → Type 0) where
  then-Triple :
      (a : Answer A) (f : A → Tx B)
      → Gives Q a
      → ((x : A) → Triple (Q x) (f x) R)
      → Gives R (then_do f a)
  then-Triple (done x t fs) f (gives h) g = g x t fs h
  then-Triple (integrity fs) f breaks g = breaks
  then-Triple error f fails g = fails

  pub bind-Triple :
      (m : Tx A) (f : A → Tx B)
      → Triple P m Q
      → ((x : A) → Triple (Q x) (f x) R)
      → Triple P (m >>= f) R
  unfolding ◌>>=◌
  bind-Triple m f h g t fs p = then-Triple (m t fs) f (h t fs p) g

  pub next-Triple :
      (m : Tx A) (n : Tx B) → Triple P m Q → ((x : A) → Triple (Q x) n R) → Triple P (m >> n) R
  unfolding ◌>>◌
  next-Triple m n h g t fs p = then-Triple (m t fs) (λ _. n) (h t fs p) g

-- Statements that touch neither the schedules nor the active seats.
abbrev pub Quiet : {A : Type 0} → Tx A → Type 0
Quiet m = (id k : ℕ) → Triple (Off id k) m (λ a. Off id k)

module _ (id k : ℕ) where
  -- The balance reads the schedules and the active seats.
  Off-same :
      (t u : Tables) → t.schedules ≡ u.schedules → t.active ≡ u.active → Off id k t → Off id k u
  unfolding Off
  Off-same t u e f p j s h =
      ap (λ rs. s.remain_count + sold j rs + (if j == id then k else 0)) (sym f)
      ∙ p j s (ap (λ g. g j) e ∙ h)

pub select_schedule-Quiet : (id : ℕ) → Quiet (select_schedule id)
unfolding select_schedule
select_schedule-Quiet id j k t [] p = gives p
select_schedule-Quiet id j k t (true ∷ fs) p = fails
select_schedule-Quiet id j k t (false ∷ fs) p = gives p

pub select_seat-Quiet : (hall : ℕ) (s : Seat) → Quiet (select_seat hall s)
unfolding select_seat
select_seat-Quiet hall s j k t [] p = gives p
select_seat-Quiet hall s j k t (true ∷ fs) p = fails
select_seat-Quiet hall s j k t (false ∷ fs) p = gives p

pub insert_payment-Quiet :
    (payment_id booking_id : ℕ) → Quiet (insert_payment payment_id booking_id)
unfolding insert_payment
insert_payment-Quiet payment_id booking_id j k t [] p = gives (Off-same j k t _ refl refl p)
insert_payment-Quiet payment_id booking_id j k t (true ∷ fs) p = fails
insert_payment-Quiet payment_id booking_id j k t (false ∷ fs) p =
    gives (Off-same j k t _ refl refl p)

pub give-Quiet : {A : Type 0} (a : A) → Quiet (give a)
unfolding give
give-Quiet a j k t fs p = gives p

pub insert_booking-Quiet : (b u id n : ℕ) → Quiet (insert_booking b u id n)
unfolding insert_booking
insert_booking-Quiet b u id n j k t (true ∷ fs) p = fails
insert_booking-Quiet b u id n j k t [] p =
    if_gives _ _ _ fails (if_gives _ _ _ (gives (Off-same j k t _ refl refl p)) breaks)
insert_booking-Quiet b u id n j k t (false ∷ fs) p =
    if_gives _ _ _ fails (if_gives _ _ _ (gives (Off-same j k t _ refl refl p)) breaks)

update_code-Quiet : (b : ℕ) (c : String) → Quiet (update_code b c)
unfolding update_code
update_code-Quiet b c j k t (true ∷ fs) p = fails
update_code-Quiet b c j k t [] p = if_gives _ _ _ breaks (gives (Off-same j k t _ refl refl p))
update_code-Quiet b c j k t (false ∷ fs) p =
    if_gives _ _ _ breaks (gives (Off-same j k t _ refl refl p))

chosen :
    (j k : ℕ) (c : String) (again : Faults → Answer String)
    → ((fs : Faults) → Gives (λ u. Off j k) (again fs))
    → (a : Answer (Unit {0})) → Gives (λ u. Off j k) a
    → Gives
        (λ u. Off j k)
        (elim a [ done u t fs ↦ done c t fs | integrity fs ↦ again fs | error ↦ error ])
chosen j k c again g (done u t fs) (gives h) = gives h
chosen j k c again g (integrity fs) breaks = g fs
chosen j k c again g error fails = fails

pub choose_code-Quiet : (b : ℕ) (cs : List String) → Quiet (choose_code b cs)
unfolding choose_code
choose_code-Quiet b [] j k t fs p = gives p
choose_code-Quiet b (c ∷ cs) j k t fs p =
    chosen j k c (choose_code b cs t) (λ fs'. choose_code-Quiet b cs j k t fs' p)
      (update_code b c t fs) (update_code-Quiet b c j k t fs p)

-- One more seat is sold.
Off-sold :
    (id k x b : ℕ) (t : Tables)
    → Off id (suc k) t
    → Off id k (record t {
      active = (record { schedule_id = id; seat_id = x; booking_id = b }) ∷ t.active;
    })
unfolding Off sold
Off-sold id k x b t p j s h = ground (arith, p j s h)

insert_seat-Off : (b id x k : ℕ) → Triple (Off id (suc k)) (insert_seat b id x) (λ a. Off id k)
unfolding insert_seat
insert_seat-Off b id x k t (true ∷ fs) p = fails
insert_seat-Off b id x k t [] p = if_gives _ _ _ breaks (gives (Off-sold id k x b t p))
insert_seat-Off b id x k t (false ∷ fs) p = if_gives _ _ _ breaks (gives (Off-sold id k x b t p))

pub insert_seats-Off :
    (b id : ℕ) (xs : List ℕ) → Triple (Off id (length xs)) (insert_seats b id xs) (λ a. Off id 0)
unfolding insert_seats
insert_seats-Off b id [] = give-Quiet tt id 0
insert_seats-Off b id (x ∷ xs) =
    next-Triple (Off id (suc (length xs))) (λ a. Off id (length xs)) (λ a. Off id 0)
      (insert_seat b id x) (insert_seats b id xs) (insert_seat-Off b id x (length xs))
      (λ a. insert_seats-Off b id xs)

same_number : (a b : ℕ) → (a == b) ≡ true → a ≡ b
same_number a b h = ground arith

taken_row :
    (o : Option Schedule) (b : Bool) (n m : ℕ)
    → ((s : Schedule) → o ≡ some s → s.remain_count + m ≡ s.total_count)
    → (b ≡ true → enough n o ≡ true)
    → (s : Schedule)
    → (if b then on_row (λ s. record s { remain_count = s.remain_count - n }) o else o) ≡ some s
    → s.remain_count + m + (if b then n else 0) ≡ s.total_count
taken_row none true n m p e s h = cc
taken_row none false n m p e s h = cc
taken_row (some s0) true n m p e s h = ground (arith, p s0 refl, e refl)
taken_row (some s0) false n m p e s h = ground (arith, p s0 refl)

-- The seats that a request takes are missing until they are sold.
Off-taken :
    (id n : ℕ) (t : Tables)
    → enough n (t.schedules id) ≡ true
    → Off id 0 t
    → Off id n (with_schedule id (λ s. record s { remain_count = s.remain_count - n }) t)
unfolding Off
Off-taken id n t e p j s h =
    taken_row (t.schedules j) (j == id) n (sold j t.active) (λ s0 q. ground (arith, p j s0 q))
      (λ q. ap (λ x. enough n (t.schedules x)) (same_number j id q) ∙ e) s h

pub take_remain-Off :
    (id n : ℕ) → Triple (Off id 0) (take_remain id n) (λ b. Off id (if b then n else 0))
unfolding take_remain
take_remain-Off id n t fs p = taking (enough n (t.schedules id)) refl fs
  where
    after : Tables
    after = with_schedule id (λ s. record s { remain_count = s.remain_count - n }) t

    taking_if :
        (b : Bool)
        → enough n (t.schedules id) ≡ b
        → (fs : Faults)
        → Gives
            (λ b. Off id (if b then n else 0))
            (if b then done true after fs else done false t fs)
    taking_if true e fs = gives (Off-taken id n t e p)
    taking_if false e fs = gives p

    taking :
        (b : Bool)
        → enough n (t.schedules id) ≡ b
        → (fs : Faults)
        → Gives
            (λ b. Off id (if b then n else 0))
            (sends
              (λ t fs.
                if enough n (t.schedules id)
                then done true
                    (with_schedule id (λ s. record s { remain_count = s.remain_count - n }) t)
                    fs
                else done false t fs)
              t
              fs)
    taking b e [] = taking_if _ refl []
    taking b e (true ∷ fs) = fails
    taking b e (false ∷ fs) = taking_if _ refl fs

closed_row :
    (o : Option Schedule) (b : Bool) (m : ℕ)
    → ((s : Schedule) → o ≡ some s → s.remain_count + m ≡ s.total_count)
    → (s : Schedule) → (if b then on_row (λ s. record s { closed = true }) o else o) ≡ some s
    → s.remain_count + m ≡ s.total_count
closed_row none true m p s h = cc
closed_row none false m p s h = cc
closed_row (some s0) true m p s h = ground (arith, p s0 refl)
closed_row (some s0) false m p s h = p s h

Off-closed :
    (id j k : ℕ) (t : Tables)
    → Off j 0 t
    → Off j 0 (with_schedule id (λ s. record s { closed = true }) t)
unfolding Off
Off-closed id j k t p i s h = ground (
  arith,
  closed_row (t.schedules i) (i == id) (sold i t.active) (λ s0 q. ground (arith, p i s0 q)) s h,
)

pub close_if_empty-Off : (id n j : ℕ) → Triple (Off j 0) (close_if_empty id n) (λ a. Off j 0)
unfolding close_if_empty close_schedule give
close_if_empty-Off id n j t fs p = closing (n == 0) fs
  where
    closing :
        (b : Bool) (fs : Faults)
        → Gives (λ a. Off j 0) ((if b then close_schedule id else give tt) t fs)
    closing true [] = gives (Off-closed id j 0 t p)
    closing true (true ∷ fs) = fails
    closing true (false ∷ fs) = gives (Off-closed id j 0 t p)
    closing false fs = gives p
