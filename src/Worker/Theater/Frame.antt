-- ===== src/Worker/Theater/Frame.antt =====
-- What each statement of a theater booking does to the seats that are sold, the payments and the number
-- of bookings.
use awstest.Prelude.{
  ℕ, suc, ◌≡◌, refl, sym, ap, ◌∙◌, String, Bool, true, false, Option, List, [], ◌∷◌, length, ◌==◌,
  if◌then◌else◌,
}
use awstest.Redis.Program.{Faults}
use awstest.Cache.{Seat}
use awstest.Worker.Tables.{
  Booking, SeatRow, Tables, Answer, done, integrity, error, Tx, give, select_schedule, select_seat,
  take_remain, close_schedule, insert_booking, update_code, code_bookings, insert_seat,
  insert_payment,
}
use awstest.Worker.Theater.{choose_code, insert_seats, close_if_empty}
use awstest.Worker.Theater.Balance.{Gives, gives, breaks, fails, Triple, if_gives, next-Triple}

-- What is followed of the tables.
pub record Frame : Type 0 where
  pub seat_ids : ℕ → Seat → Option ℕ
  pub active : List SeatRow
  pub payments : List ℕ
  pub booked : ℕ

abbrev pub frame_of : Tables → Frame
frame_of t = record {
  seat_ids = t.seat_ids;
  active = t.active;
  payments = t.payments;
  booked = length t.bookings;
}

abbrev pub In : Frame → Tables → Type 0
In f t = frame_of t ≡ f

-- A statement that keeps the frame.
abbrev pub Framed : {A : Type 0} → Tx A → Type 0
Framed m = (f : Frame) → Triple (In f) m (λ a. In f)

give-Framed : {A : Type 0} (a : A) → Framed (give a)
unfolding give
give-Framed a f t fs p = gives p

pub select_seat-In :
    (hall : ℕ) (s : Seat) (f : Frame)
    → Triple (In f) (select_seat hall s) (λ o t. In f t × (f.seat_ids hall s ≡ o))
unfolding select_seat
select_seat-In hall s f t [] p = gives (p, ap (λ g. g.seat_ids hall s) (sym p))
select_seat-In hall s f t (true ∷ fs) p = fails
select_seat-In hall s f t (false ∷ fs) p = gives (p, ap (λ g. g.seat_ids hall s) (sym p))

pub select_schedule-Framed : (id : ℕ) → Framed (select_schedule id)
unfolding select_schedule
select_schedule-Framed id f t [] p = gives p
select_schedule-Framed id f t (true ∷ fs) p = fails
select_schedule-Framed id f t (false ∷ fs) p = gives p

abbrev pub paid : ℕ → Frame → Frame
paid b f = record f { payments = b ∷ f.payments }

abbrev pub listed : Frame → Frame
listed f = record f { booked = suc f.booked }

abbrev sat : ℕ → ℕ → ℕ → Frame → Frame
sat b id x f = record f {
  active = (record { schedule_id = id; seat_id = x; booking_id = b }) ∷ f.active;
}

pub insert_payment-In :
    (p b : ℕ) (f : Frame) → Triple (In f) (insert_payment p b) (λ a. In (paid b f))
unfolding insert_payment
insert_payment-In p b f t [] h = gives (ap (paid b) h)
insert_payment-In p b f t (true ∷ fs) h = fails
insert_payment-In p b f t (false ∷ fs) h = gives (ap (paid b) h)

pub insert_booking-In :
    (b u id n : ℕ) (f : Frame) → Triple (In f) (insert_booking b u id n) (λ a. In (listed f))
unfolding insert_booking
insert_booking-In b u id n f t (true ∷ fs) h = fails
insert_booking-In b u id n f t [] h =
    if_gives _ _ _ fails (if_gives _ _ _ (gives (ap listed h)) breaks)
insert_booking-In b u id n f t (false ∷ fs) h =
    if_gives _ _ _ fails (if_gives _ _ _ (gives (ap listed h)) breaks)

insert_seat-In :
    (b id x : ℕ) (f : Frame) → Triple (In f) (insert_seat b id x) (λ a. In (sat b id x f))
unfolding insert_seat
insert_seat-In b id x f t (true ∷ fs) h = fails
insert_seat-In b id x f t [] h = if_gives _ _ _ breaks (gives (ap (sat b id x) h))
insert_seat-In b id x f t (false ∷ fs) h = if_gives _ _ _ breaks (gives (ap (sat b id x) h))

-- The frame with the seats `xs` sold, the last on top.
unfoldable pub seated : ℕ → ℕ → List ℕ → Frame → Frame
seated b id [] f = f
seated b id (x ∷ xs) f = seated b id xs (sat b id x f)

pub insert_seats-In :
    (b id : ℕ) (xs : List ℕ) (f : Frame)
    → Triple (In f) (insert_seats b id xs) (λ a. In (seated b id xs f))
unfolding insert_seats seated
insert_seats-In b id [] f = give-Framed tt f
insert_seats-In b id (x ∷ xs) f =
    next-Triple (In f) (λ a. In (sat b id x f)) (λ a. In (seated b id (x ∷ xs) f))
      (insert_seat b id x) (insert_seats b id xs) (insert_seat-In b id x f)
      (λ a. insert_seats-In b id xs (sat b id x f))

pub take_remain-Framed : (id n : ℕ) → Framed (take_remain id n)
unfolding take_remain
take_remain-Framed id n f t [] p = if_gives _ _ _ (gives p) (gives p)
take_remain-Framed id n f t (true ∷ fs) p = fails
take_remain-Framed id n f t (false ∷ fs) p = if_gives _ _ _ (gives p) (gives p)

pub close_if_empty-Framed : (id n : ℕ) → Framed (close_if_empty id n)
unfolding close_if_empty close_schedule give
close_if_empty-Framed id n f t fs p = closing (n == 0) fs
  where
    closing :
        (b : Bool) (fs : Faults)
        → Gives (λ a. In f) ((if b then close_schedule id else give tt) t fs)
    closing true [] = gives p
    closing true (true ∷ fs) = fails
    closing true (false ∷ fs) = gives p
    closing false fs = gives p

length-code_bookings :
    (b : ℕ) (c : String) (bs : List Booking) → length (code_bookings b c bs) ≡ length bs
unfolding code_bookings
length-code_bookings b c [] = refl
length-code_bookings b c (x ∷ bs) = ap suc (length-code_bookings b c bs)

-- The frame of the tables but for the number of bookings.
abbrev counted : Tables → ℕ → Frame
counted t n = record (frame_of t) { booked = n }

update_code-Framed : (b : ℕ) (c : String) → Framed (update_code b c)
unfolding update_code
update_code-Framed b c f t (true ∷ fs) h = fails
update_code-Framed b c f t [] h =
    if_gives _ _ _ breaks (gives (ap (counted t) (length-code_bookings b c t.bookings) ∙ h))
update_code-Framed b c f t (false ∷ fs) h =
    if_gives _ _ _ breaks (gives (ap (counted t) (length-code_bookings b c t.bookings) ∙ h))

chosen :
    (f : Frame) (c : String) (again : Faults → Answer String)
    → ((fs : Faults) → Gives (λ u. In f) (again fs))
    → (a : Answer (Unit {0})) → Gives (λ u. In f) a
    → Gives
        (λ u. In f)
        (elim a [ done u t fs ↦ done c t fs | integrity fs ↦ again fs | error ↦ error ])
chosen f c again g (done u t fs) (gives h) = gives h
chosen f c again g (integrity fs) breaks = g fs
chosen f c again g error fails = fails

pub choose_code-Framed : (b : ℕ) (cs : List String) → Framed (choose_code b cs)
unfolding choose_code
choose_code-Framed b [] f t fs p = gives p
choose_code-Framed b (c ∷ cs) f t fs p =
    chosen f c (choose_code b cs t) (λ fs'. choose_code-Framed b cs f t fs' p)
      (update_code b c t fs) (update_code-Framed b c f t fs p)
