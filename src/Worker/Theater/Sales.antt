-- ===== src/Worker/Theater/Sales.antt =====
-- A theater booking sells all of its seats or changes nothing, whatever statements fail.
use awstest.Prelude.{
  ℕ, ◌≡◌, ◌≢◌, ◌⊎◌, inl, inr, refl, sym, ap, String, Bool, true, false, Option, none, some, List,
  [], ◌∷◌, length,
}
use awstest.Redis.Program.{Faults}
use awstest.Cache.{Seat}
use awstest.Booking.{Settings}
use awstest.Worker.Tables.{
  Schedule, Tables, Answer, done, integrity, error, ◌>>=◌, give, select_schedule,
}
use awstest.Worker.Holds.{seats_of}
use awstest.Worker.Theater.{
  Request, Assigned, Ending, not_found, invalid_seat, sold_out, reserved, find_seats, remain_of,
  reserve, with_seats, with_row, transaction, committed, ended, rolled_back,
  process_theater_booking,
}
use awstest.Worker.Theater.Balance.{Gives, gives, fails, Triple, bind-Triple, next-Triple}
use awstest.Worker.Theater.Frame.{
  Frame, frame_of, In, select_seat-In, select_schedule-Framed, paid, listed, insert_payment-In,
  insert_booking-In, seated, insert_seats-In, take_remain-Framed, close_if_empty-Framed,
  choose_code-Framed,
}

-- `ids` are the seat ids of the seats of a hall, in order.
Identified : (Seat → Option ℕ) → List Seat → List ℕ → Type 0
Identified g [] [] = Unit
Identified g (s ∷ ss) (x ∷ xs) = (g s ≡ some x) × Identified g ss xs
Identified g [] (x ∷ xs) = ⊥
Identified g (s ∷ ss) [] = ⊥

-- The frame after a booking of the seats `ss`.
abbrev sold_to : Request → Assigned → List ℕ → Frame → Frame
sold_to q new ids f = paid new.booking_id (seated new.booking_id q.schedule_id ids (listed f))

-- All the seats of the request in the schedule's hall are sold to the new booking, which is paid.
pub Sold : Request → Assigned → Tables → Frame → Type 0
unfolding Identified
Sold q new before g =
    (s : Schedule) × (ids : List ℕ) × (before.schedules q.schedule_id ≡ some s)
    × Identified (before.seat_ids s.hall_id) (seats_of q.seats) ids
    × (g ≡ sold_to q new ids (frame_of before))

module _ (q : Request) (new : Assigned) (before : Tables) where
  abbrev f : Frame
  f = frame_of before

  -- What holds at the end of a transaction.
  abbrev Ended : Ending → Tables → Type 0
  Ended (reserved b n) t = Sold q new before (frame_of t)
  Ended e t = Unit

  abbrev Found : ℕ → List Seat → Option (List ℕ) → Tables → Type 0
  Found hall ss none t = In f t
  Found hall ss (some ids) t = In f t × Identified (f.seat_ids hall) ss ids

  more :
      (hall : ℕ) (x : Seat) (xs : List Seat) (n : ℕ) (e : f.seat_ids hall x ≡ some n)
      (o : Option (List ℕ))
      → Triple
          (Found hall xs o)
          (elim o [ none ↦ give none | some ids ↦ give (some (n ∷ ids)) ])
          (Found hall (x ∷ xs))
  unfolding give Identified
  more hall x xs n e none t fs p = gives p
  more hall x xs n e (some ids) t fs p = gives (p.0, (e, p.1))

  one_more :
      (hall : ℕ) (x : Seat) (xs : List Seat)
      → Triple (In f) (find_seats hall xs) (Found hall xs)
      → (o : Option ℕ)
      → Triple
          (λ t. In f t × (f.seat_ids hall x ≡ o))
          (elim o [
            | none ↦ give none
            | some n ↦
                (find_seats hall xs >>= λ rest. elim rest [
                  | none ↦ give none
                  | some ids ↦ give (some (n ∷ ids))
                ])
          ])
          (Found hall (x ∷ xs))
  unfolding give
  one_more hall x xs h none t fs p = gives p.0
  one_more hall x xs h (some n) t fs p =
      bind-Triple (In f) (Found hall xs) (Found hall (x ∷ xs)) _ _ h (more hall x xs n p.1) t fs p.0

  find_seats-Found :
      (hall : ℕ) (ss : List Seat) → Triple (In f) (find_seats hall ss) (Found hall ss)
  unfolding find_seats give Identified
  find_seats-Found hall [] t fs p = gives (p, tt)
  find_seats-Found hall (x ∷ xs) t fs p =
      bind-Triple (In f) (λ o t. In f t × (f.seat_ids hall x ≡ o)) (Found hall (x ∷ xs)) _ _
        (select_seat-In hall x f) (one_more hall x xs (find_seats-Found hall xs)) t fs p

  reserve-Ended :
      (s : Schedule) (theater_id : ℕ) (ids : List ℕ)
      → before.schedules q.schedule_id ≡ some s
      → Identified (f.seat_ids s.hall_id) (seats_of q.seats) ids
      → Triple (In f) (reserve q new theater_id ids) Ended
  unfolding reserve give Sold
  reserve-Ended s theater_id ids e h =
      let g = seated new.booking_id q.schedule_id ids (listed f) in
      next-Triple (In f) (λ a. In (listed f)) Ended _ _
        (insert_booking-In new.booking_id q.user_id q.schedule_id _ f)
        λ a.
          bind-Triple (In (listed f)) (λ a. In (listed f)) Ended _ _
            (choose_code-Framed new.booking_id new.codes (listed f))
            λ code.
              next-Triple (In (listed f)) (λ a. In g) Ended _ _
                (insert_seats-In new.booking_id q.schedule_id ids (listed f))
                λ a.
                  next-Triple (In g) (λ a. In (paid new.booking_id g)) Ended _ _
                    (insert_payment-In new.payment_id new.booking_id g)
                    λ a.
                      bind-Triple (In (paid new.booking_id g)) (λ a. In (paid new.booking_id g))
                        Ended _ _ (select_schedule-Framed q.schedule_id (paid new.booking_id g))
                        λ row.
                          next-Triple (In (paid new.booking_id g)) (λ a. In (paid new.booking_id g))
                            Ended _ _
                            (close_if_empty-Framed q.schedule_id (remain_of row)
                              (paid new.booking_id g))
                            λ a t fs p. gives (s, ids, e, h, p)

  with_seats-Ended :
      (s : Schedule) (theater_id : ℕ) (o : Option (List ℕ))
      → before.schedules q.schedule_id ≡ some s
      → Triple (Found s.hall_id (seats_of q.seats) o) (with_seats q new theater_id o) Ended
  unfolding with_seats give
  with_seats-Ended s theater_id none e t fs p = gives tt
  with_seats-Ended s theater_id (some ids) e t fs p =
      bind-Triple (In f) (λ b. In f) Ended _ _
        (take_remain-Framed q.schedule_id (length (seats_of q.seats)) f) changed t fs p.0
    where
      changed :
          (b : Bool)
          → Triple
              (In f)
              (elim b [ false ↦ give sold_out | true ↦ reserve q new theater_id ids ])
              Ended
      changed true t fs h = reserve-Ended s theater_id ids e p.1 t fs h
      changed false t fs h = gives tt

  with_row-Ended :
      (o : Option Schedule)
      → before.schedules q.schedule_id ≡ o
      → Triple (In f) (with_row q new o) Ended
  unfolding with_row give
  with_row-Ended none e t fs p = gives tt
  with_row-Ended (some s) e t fs p =
      bind-Triple (In f) (Found s.hall_id (seats_of q.seats)) Ended _ _
        (find_seats-Found s.hall_id (seats_of q.seats)) (λ o. with_seats-Ended s s.theater_id o e) t
        fs p

  select_schedule-At :
      (id : ℕ)
      → Triple (λ t. t ≡ before) (select_schedule id) (λ o t. In f t × (before.schedules id ≡ o))
  unfolding select_schedule
  select_schedule-At id t [] p = gives (ap frame_of p, ap (λ t. t.schedules id) (sym p))
  select_schedule-At id t (true ∷ fs) p = fails
  select_schedule-At id t (false ∷ fs) p = gives (ap frame_of p, ap (λ t. t.schedules id) (sym p))

  transaction-Ended : Triple (λ t. t ≡ before) (transaction q new) Ended
  unfolding transaction
  transaction-Ended =
      bind-Triple (λ t. t ≡ before) (λ o t. In f t × (before.schedules q.schedule_id ≡ o)) Ended _ _
        (select_schedule-At q.schedule_id) (λ o t fs p. with_row-Ended o p.1 t fs p.0)

module _ (q : Request) (new : Assigned) (settings : Settings) (message : String) where
  -- Nothing is changed and no cache is deleted, or the seats are sold and a theater's caches are deleted.
  abbrev Whole : Tables → Tables → Option ℕ → Type 0
  Whole before after stale =
      ((after ≡ before) × (stale ≡ none)) ⊎ (Sold q new before (frame_of after) × (stale ≢ none))

  some≢none : {n : ℕ} → some n ≢ none
  some≢none p = cc

  ended-Whole :
      (before : Tables) (a : Answer Ending)
      → Gives (Ended q new before) a
      → let p = ended settings q message before a in Whole before p.tables p.stale
  unfolding ended committed rolled_back
  ended-Whole before (done not_found t fs) g = inl (refl, refl)
  ended-Whole before (done invalid_seat t fs) g = inl (refl, refl)
  ended-Whole before (done sold_out t fs) g = inl (refl, refl)
  ended-Whole before (done (reserved b n) t []) (gives g) = inr (g, some≢none)
  ended-Whole before (done (reserved b n) t (true ∷ fs)) g = inl (refl, refl)
  ended-Whole before (done (reserved b n) t (false ∷ fs)) (gives g) = inr (g, some≢none)
  ended-Whole before (integrity fs) g = inl (refl, refl)
  ended-Whole before error g = inl (refl, refl)

  -- Whatever statements fail, process_theater_booking changes no table and deletes no caches, or the
  -- seats table knows every valid seat of the request in the hall of the schedule, these seats and no
  -- others are sold to one new booking that has one payment, and caches are deleted.
  pub theater-sells_all :
      (fs : Faults) (t : Tables)
      → let p = process_theater_booking settings q new message fs t in
        ((p.tables ≡ t) × (p.stale ≡ none)) ⊎ (Sold q new t (frame_of p.tables) × (p.stale ≢ none))
  unfolding process_theater_booking
  theater-sells_all fs t =
      ended-Whole t (transaction q new t fs) (transaction-Ended q new t t fs refl)
