-- ===== src/Worker/Theater/Invariant.antt =====
-- A theater booking keeps the balance of every schedule, whatever statements fail.
use awstest.Prelude.{
  ℕ, suc, ◌≡◌, refl, ap, ◌∙◌, subst, String, Bool, true, false, Option, none, some, List, [], ◌∷◌,
  length, arith, if◌then◌else◌,
}
use awstest.Redis.Program.{Faults}
use awstest.Cache.{Seat}
use awstest.Booking.{Settings}
use awstest.Worker.Tables.{Schedule, Tables, Answer, done, integrity, error, ◌>>=◌, give}
use awstest.Worker.Holds.{seats_of}
use awstest.Worker.Theater.{
  Request, Assigned, Ending, not_found, invalid_seat, sold_out, reserved, find_seats, remain_of,
  reserve, with_seats, with_row, transaction, committed, ended, rolled_back,
  process_theater_booking,
}
use awstest.Worker.Theater.Balance.{
  Off, Balanced, Gives, gives, Triple, bind-Triple, next-Triple, select_schedule-Quiet,
  select_seat-Quiet, insert_payment-Quiet, give-Quiet, insert_booking-Quiet, choose_code-Quiet,
  insert_seats-Off, take_remain-Off, close_if_empty-Off,
}

module _ (q : Request) (new : Assigned) where
  abbrev Even : Tables → Type 0
  Even = Off q.schedule_id 0

  reserve-Off :
      (theater_id : ℕ) (ids : List ℕ)
      → Triple (Off q.schedule_id (length ids)) (reserve q new theater_id ids) (λ e. Even)
  unfolding reserve
  reserve-Off theater_id ids =
      let n = length ids in
      next-Triple (Off q.schedule_id n) (λ a. Off q.schedule_id n) (λ e. Even) _ _
        (insert_booking-Quiet new.booking_id q.user_id q.schedule_id _ q.schedule_id n)
        λ a.
          bind-Triple (Off q.schedule_id n) (λ a. Off q.schedule_id n) (λ e. Even) _ _
            (choose_code-Quiet new.booking_id new.codes q.schedule_id n)
            λ code.
              next-Triple (Off q.schedule_id n) (λ a. Even) (λ e. Even) _ _
                (insert_seats-Off new.booking_id q.schedule_id ids)
                λ a.
                  next-Triple Even (λ a. Even) (λ e. Even) _ _
                    (insert_payment-Quiet new.payment_id new.booking_id q.schedule_id 0)
                    λ a.
                      bind-Triple Even (λ a. Even) (λ e. Even) _ _
                        (select_schedule-Quiet q.schedule_id q.schedule_id 0)
                        λ row.
                          next-Triple Even (λ a. Even) (λ e. Even) _ _
                            (close_if_empty-Off q.schedule_id (remain_of row) q.schedule_id)
                            λ a. give-Quiet _ q.schedule_id 0

  with_seats-Off :
      (theater_id : ℕ) (o : Option (List ℕ))
      → ((ids : List ℕ) → o ≡ some ids → length ids ≡ length (seats_of q.seats))
      → Triple Even (with_seats q new theater_id o) (λ e. Even)
  unfolding with_seats
  with_seats-Off theater_id none h = give-Quiet invalid_seat q.schedule_id 0
  with_seats-Off theater_id (some ids) h =
      bind-Triple Even (λ b. Off q.schedule_id (if b then length (seats_of q.seats) else 0))
        (λ e. Even) _ _ (take_remain-Off q.schedule_id (length (seats_of q.seats))) changed
    where
      changed :
          (b : Bool)
          → Triple
              (Off q.schedule_id (if b then length (seats_of q.seats) else 0))
              (elim b [ false ↦ give sold_out | true ↦ reserve q new theater_id ids ])
              (λ e. Even)
      changed true =
          subst (λ n. Triple (Off q.schedule_id n) (reserve q new theater_id ids) (λ e. Even))
            (h ids refl) (reserve-Off theater_id ids)
      changed false = give-Quiet sold_out q.schedule_id 0

-- One seat id for each seat.
abbrev Sized : List Seat → Option (List ℕ) → Type 0
Sized ss none = Unit
Sized ss (some ids) = length ids ≡ length ss

module _ (id : ℕ) (hall : ℕ) where
  abbrev Found : List Seat → Option (List ℕ) → Tables → Type 0
  Found ss o t = Off id 0 t × Sized ss o

  give-Found :
      (ss : List Seat) (o : Option (List ℕ)) → Sized ss o → Triple (Off id 0) (give o) (Found ss)
  unfolding give
  give-Found ss o h t fs p = gives (p, h)

  more :
      (x : Seat) (xs : List Seat) (n : ℕ) (o : Option (List ℕ))
      → Triple
          (Found xs o)
          (elim o [ none ↦ give none | some ids ↦ give (some (n ∷ ids)) ])
          (Found (x ∷ xs))
  more x xs n none t fs p = give-Found (x ∷ xs) none tt t fs p.0
  more x xs n (some ids) t fs p = give-Found (x ∷ xs) (some (n ∷ ids)) (ap suc p.1) t fs p.0

  one_more :
      (x : Seat) (xs : List Seat)
      → Triple (Off id 0) (find_seats hall xs) (Found xs)
      → (o : Option ℕ)
      → Triple
          (Off id 0)
          (elim o [
            | none ↦ give none
            | some n ↦
                (find_seats hall xs >>= λ rest. elim rest [
                  | none ↦ give none
                  | some ids ↦ give (some (n ∷ ids))
                ])
          ])
          (Found (x ∷ xs))
  one_more x xs h none = give-Found (x ∷ xs) none tt
  one_more x xs h (some n) = bind-Triple (Off id 0) (Found xs) (Found (x ∷ xs)) _ _ h (more x xs n)

  find_seats-Found : (ss : List Seat) → Triple (Off id 0) (find_seats hall ss) (Found ss)
  unfolding find_seats
  find_seats-Found [] = give-Found [] (some []) refl
  find_seats-Found (x ∷ xs) =
      bind-Triple (Off id 0) (λ a. Off id 0) (Found (x ∷ xs)) _ _ (select_seat-Quiet hall x id 0)
        (one_more x xs (find_seats-Found xs))

module _ (q : Request) (new : Assigned) where
  abbrev Level : Tables → Type 0
  Level = Off q.schedule_id 0

  with_seats_sized :
      (theater_id : ℕ) (o : Option (List ℕ))
      → Triple
          (Found q.schedule_id theater_id (seats_of q.seats) o)
          (with_seats q new theater_id o)
          (λ e. Level)
  with_seats_sized theater_id o t fs p = with_seats-Off q new theater_id o (sized o p.1) t fs p.0
    where
      sized :
          (o : Option (List ℕ))
          → Sized (seats_of q.seats) o
          → (ids : List ℕ) → o ≡ some ids
          → length ids ≡ length (seats_of q.seats)
      sized none h ids e = cc
      sized (some xs) h ids e = ap length (same e) ∙ h
        where
          same : {ys : List ℕ} → some xs ≡ some ys → ys ≡ xs
          same e = cc

  with_row-Off : (o : Option Schedule) → Triple Level (with_row q new o) (λ e. Level)
  unfolding with_row
  with_row-Off none = give-Quiet not_found q.schedule_id 0
  with_row-Off (some s) =
      bind-Triple Level (Found q.schedule_id s.theater_id (seats_of q.seats)) (λ e. Level) _ _
        (find_seats-Found q.schedule_id s.hall_id (seats_of q.seats))
        (with_seats_sized s.theater_id)

  transaction-Off : Triple Level (transaction q new) (λ e. Level)
  unfolding transaction
  transaction-Off =
      bind-Triple Level (λ a. Level) (λ e. Level) _ _
        (select_schedule-Quiet q.schedule_id q.schedule_id 0) with_row-Off

  Level-Balanced : (t : Tables) → Level t → Balanced t
  unfolding Off
  Level-Balanced t p j s h = ground (arith, p j s h)

  Balanced-Level : (t : Tables) → Balanced t → Level t
  unfolding Off
  Balanced-Level t p j s h = ground (arith, p j s h)

  module _ (settings : Settings) (message : String) where
    ended-Level :
        (before : Tables) (a : Answer Ending)
        → Level before
        → Gives (λ e. Level) a
        → Level (ended settings q message before a).tables
    unfolding ended committed rolled_back
    ended-Level before (done not_found t fs) p g = p
    ended-Level before (done invalid_seat t fs) p g = p
    ended-Level before (done sold_out t fs) p g = p
    ended-Level before (done (reserved b n) t []) p (gives g) = g
    ended-Level before (done (reserved b n) t (true ∷ fs)) p g = p
    ended-Level before (done (reserved b n) t (false ∷ fs)) p (gives g) = g
    ended-Level before (integrity fs) p g = p
    ended-Level before error p g = p

    -- If every seat of every schedule is sold or remains, this is so after process_theater_booking, on every branch and
    -- whatever statements fail.
    pub theater-keeps_balance :
        (fs : Faults) (t : Tables)
        → Balanced t
        → Balanced (process_theater_booking settings q new message fs t).tables
    unfolding process_theater_booking
    theater-keeps_balance fs t h = Level-Balanced _ (
        ended-Level t (transaction q new t fs) (Balanced-Level t h)
          (transaction-Off t fs (Balanced-Level t h)))
