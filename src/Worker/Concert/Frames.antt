-- ===== src/Worker/Concert/Frames.antt =====
-- What each statement of a concert booking does to the bookings, the active seats and the payments.
use awstest.Prelude.{
  ℕ, String, ◌≡◌, refl, ap, ap₂, ◌∙◌, Bool, true, false, some, List, [], ◌∷◌, map, ◌==◌,
  if◌then◌else◌,
}
use awstest.Cache.{Seat}
use awstest.Worker.Concert.Tables.{
  ConcertBooking, ConcertSeat, ConcertTables, Raised, duplicate_ref, duplicate_key, operational,
  Result, ok, raise, with_rows, is_taken, insert_rows, insert_concert_booking, set_code,
  update_concert_code, insert_concert_seats, insert_concert_payment,
}
use awstest.Worker.Concert.Job.{World, select, write, connect, commit, rollback, written}
use awstest.Worker.Concert.Triples.{
  Frame, line_of, frame_of, Triple, Ends, ends, raises, sends-Ends, Committed,
}

-- The frames that are committed and that the connection sees.
abbrev pub Held : {D C : Type 0} → Frame → Frame → World D C → Type 0
Held g h w = (frame_of w.committed ≡ g) × (frame_of w.tables ≡ h)

-- What a statement that writes leaves, unless it raises.
abbrev pub Lands : (Frame → Type 0) → Result ConcertTables → Type 0
Lands S (ok t) = S (frame_of t)
Lands S (raise e) = Unit

module _ {D C : Type 0} (g h : Frame) where
  abbrev Kept : World D C → Type 0
  Kept = Held g h

  pub select-Held :
      {A : Type 0} (f : ConcertTables → A)
      → Triple Kept
          (select f)
          (λ a w. Kept w × ((t : ConcertTables) × (frame_of t ≡ h) × (a ≡ f t)))
          Kept
  unfolding select
  select-Held f w p =
      sends-Ends (λ a w. Kept w × ((t : ConcertTables) × (frame_of t ≡ h) × (a ≡ f t))) Kept _
        w.statements w (λ gs. ends (p, (w.tables, p.1, refl))) (ends (p, (w.tables, p.1, refl)))
        (λ gs. p)

  module _ (S : Frame → Type 0) where
    abbrev After : Unit {0} → World D C → Type 0
    After a w = (frame_of w.committed ≡ g) × S (frame_of w.tables)

    written-Ends :
        (x : Result ConcertTables) (w : World D C)
        → frame_of w.committed ≡ g
        → frame_of w.tables ≡ h
        → Lands S x
        → Ends After Kept (written x w)
    written-Ends (ok t) w p q l = ends (p, l)
    written-Ends (raise e) w p q l = raises (p, q)

    pub write-Held :
        (f : ConcertTables → Result ConcertTables)
        → ((t : ConcertTables) → frame_of t ≡ h → Lands S (f t))
        → Triple Kept (write f) After Kept
    unfolding write
    write-Held f l w p =
        sends-Ends After Kept _ w.statements w
          (λ gs. written-Ends (f w.tables) (record w { statements = gs }) p.0 p.1 (l w.tables p.1))
          (written-Ends (f w.tables) w p.0 p.1 (l w.tables p.1)) (λ gs. p)

  pub rollback-Held : Triple Kept rollback (λ a. Held g g) Kept
  unfolding rollback
  rollback-Held w p = ends (p.0, p.0)

  -- COMMIT, or its failure.
  pub commit-Held : Triple Kept commit (λ a w. frame_of w.committed ≡ h) Kept
  unfolding commit
  commit-Held w p =
      sends-Ends (λ a w. frame_of w.committed ≡ h) Kept _ w.statements w (λ gs. ends p.1) (ends p.1)
        (λ gs. p)

pub connect-Held :
    {D C : Type 0} (g : Frame)
    → Triple {D = D} {C = C}
        (Committed (λ x. x ≡ g))
        connect
        (λ a. Held g g)
        (Committed (λ x. x ≡ g))
unfolding connect
connect-Held g w p =
    sends-Ends (λ a. Held g g) (Committed (λ x. x ≡ g)) _ w.statements w (λ gs. ends (p, p))
      (ends (p, p)) (λ gs. p)

line-set_code :
    (b : ℕ) (code : String) (x : ConcertBooking) → line_of (set_code b code x) ≡ line_of x
unfolding set_code
line-set_code b code x = chosen (x.booking_id == b)
  where
    chosen :
        (t : Bool) → line_of (if t then record x { booking_code = some code } else x) ≡ line_of x
    chosen true = refl
    chosen false = refl

pub lines-set_code :
    (b : ℕ) (code : String) (bs : List ConcertBooking)
    → map line_of (map (set_code b code) bs) ≡ map line_of bs
lines-set_code b code [] = refl
lines-set_code b code (x ∷ bs) =
    ap₂ (λ y ys. y ∷ ys) (line-set_code b code x) (lines-set_code b code bs)

abbrev pub listed : Frame → ConcertBooking → Frame
listed h b = record h { lines = line_of b ∷ h.lines }

abbrev pub paid : Frame → ℕ → ℕ → Frame
paid h payment_id b = record h {
  payments = (record { payment_id = payment_id; booking_id = b; paid = true }) ∷ h.payments;
}

module _ (h : Frame) where
  pub insert_booking-Lands :
      (b : ConcertBooking) (t : ConcertTables)
      → frame_of t ≡ h
      → Lands (λ x. x ≡ listed h b) (insert_concert_booking b t)
  unfolding insert_concert_booking
  insert_booking-Lands b t e = tested (b.reg_count == 0) _ _
    where
      tested :
          (p q s : Bool)
          → Lands
              (λ x. x ≡ listed h b)
              (if p
                then raise operational
                else if q
                then raise duplicate_ref
                else if s
                then ok (record t { bookings = b ∷ t.bookings })
                else raise Raised.foreign_key)
      tested true q s = tt
      tested false true s = tt
      tested false false true = ap (λ x. listed x b) e
      tested false false false = tt

  pub update_code-Lands :
      (b : ℕ) (code : String) (t : ConcertTables)
      → frame_of t ≡ h
      → Lands (λ x. x ≡ h) (update_concert_code b code t)
  unfolding update_concert_code
  update_code-Lands b code t e = tested _
    where
      tested :
          (p : Bool)
          → Lands
              (λ x. x ≡ h)
              (if p
                then raise duplicate_key
                else ok (record t { bookings = map (set_code b code) t.bookings }))
      tested true = tt
      tested false =
          ap (λ ls. record (frame_of t) { lines = ls }) (lines-set_code b code t.bookings) ∙ e

  pub insert_payment-Lands :
      (payment_id b : ℕ) (t : ConcertTables)
      → frame_of t ≡ h
      → Lands (λ x. x ≡ paid h payment_id b) (insert_concert_payment payment_id b t)
  unfolding insert_concert_payment
  insert_payment-Lands payment_id b t e = tested _
    where
      tested :
          (p : Bool)
          → Lands
              (λ x. x ≡ paid h payment_id b)
              (if p
                then raise duplicate_key
                else ok (record t {
                  payments =
                      (record { payment_id = payment_id; booking_id = b; paid = true })
                      ∷ t.payments;
                }))
      tested true = tt
      tested false = ap (λ x. paid x payment_id b) e

-- The rows of the seats, the last on top.
unfoldable pub rows_of : ℕ → ℕ → List Seat → List ConcertSeat → List ConcertSeat
rows_of b show_id [] rows = rows
rows_of b show_id (s ∷ ss) rows =
    rows_of b show_id ss ((record { booking_id = b; show_id = show_id; seat = s }) ∷ rows)

abbrev Rows : List ConcertSeat → Result (List ConcertSeat) → Type 0
Rows rows (ok x) = x ≡ rows
Rows rows (raise e) = Unit

insert_rows-Rows :
    (b show_id : ℕ) (ss : List Seat) (rows : List ConcertSeat)
    → Rows (rows_of b show_id ss rows) (insert_rows b show_id ss rows)
unfolding insert_rows rows_of
insert_rows-Rows b show_id [] rows = refl
insert_rows-Rows b show_id (s ∷ ss) rows = tested _ _ (is_taken show_id s rows) (
    insert_rows-Rows b show_id ss ((record { booking_id = b; show_id = show_id; seat = s }) ∷ rows))
  where
    tested :
        (want : List ConcertSeat) (x : Result (List ConcertSeat)) (p : Bool)
        → Rows want x
        → Rows want (if p then raise duplicate_key else x)
    tested want x true h = tt
    tested want x false h = h

abbrev pub seated : ℕ → ℕ → List Seat → Frame → Frame
seated b show_id ss h = record h { active = rows_of b show_id ss h.active }

pub insert_seats-Lands :
    (h : Frame) (b show_id : ℕ) (ss : List Seat) (t : ConcertTables)
    → frame_of t ≡ h
    → Lands (λ x. x ≡ seated b show_id ss h) (insert_concert_seats b show_id ss t)
unfolding insert_concert_seats
insert_seats-Lands h b show_id [] t e = tt
insert_seats-Lands h b show_id (s ∷ ss) t e =
    placed _ (insert_rows-Rows b show_id (s ∷ ss) t.active)
  where
    placed :
        (x : Result (List ConcertSeat))
        → Rows (rows_of b show_id (s ∷ ss) t.active) x
        → Lands (λ y. y ≡ seated b show_id (s ∷ ss) h) (with_rows t x)
    placed (raise y) p = tt
    placed (ok rows) p =
        ap (λ y. record (frame_of t) { active = y }) p ∙ ap (seated b show_id (s ∷ ss)) e
