-- ===== src/Worker/Tables.antt =====
-- The tables of db-schema/create.sql that a theater booking reads and writes, and its statements: each
-- gives its rows, breaks a unique or foreign key, or fails. A transaction is a program of statements.
use awstest.Prelude.{
  ℕ, ◌-◌, String, Bool, true, false, Option, none, some, List, [], ◌∷◌, leb, ltb, ◌==◌, ◌&&◌, ◌||◌,
  str_eq, if◌then◌else◌,
}
use awstest.Redis.Program.{Faults}
use awstest.Cache.{Seat}

pub record Schedule : Type 0 where
  pub hall_id : ℕ
  pub theater_id : ℕ
  pub total_count : ℕ
  pub remain_count : ℕ
  pub closed : Bool

pub record Booking : Type 0 where
  pub booking_id : ℕ
  pub booking_code : Option String
  pub user_id : ℕ
  pub schedule_id : ℕ
  pub reg_count : ℕ

-- A row of booking_seats whose status is ACTIVE.
pub record SeatRow : Type 0 where
  pub schedule_id : ℕ
  pub seat_id : ℕ
  pub booking_id : ℕ

pub record Tables : Type 0 where
  pub users : ℕ → Bool
  pub seat_ids : ℕ → Seat → Option ℕ
  pub schedules : ℕ → Option Schedule
  pub bookings : List Booking
  pub active : List SeatRow
  pub payments : List ℕ

-- What a statement or a program of statements gives; `integrity` is an IntegrityError, `error` any
-- other exception.
pub data Answer (A : Type 0) : Type 0 where
  done : A → Tables → Faults → Answer A
  integrity : Faults → Answer A
  error : Answer A

abbrev pub Tx : Type 0 → Type 0
Tx A = Tables → Faults → Answer A

abbrev pub then_do : {A B : Type 0} → (A → Tx B) → Answer A → Answer B
then_do f (done a t fs) = f a t fs
then_do f (integrity fs) = integrity fs
then_do f error = error

infixl 5 ◌>>=◌ ◌>>◌
unfoldable pub ◌>>=◌ : {A B : Type 0} → Tx A → (A → Tx B) → Tx B
(m >>= f) t fs = then_do f (m t fs)

unfoldable pub ◌>>◌ : {A B : Type 0} → Tx A → Tx B → Tx B
(m >> n) t fs = then_do (λ _. n) (m t fs)

unfoldable pub give : {A : Type 0} → A → Tx A
give a t fs = done a t fs

-- The next failure is the statement's.
abbrev pub sends : {A : Type 0} → (Tables → Faults → Answer A) → Tx A
sends f t [] = f t []
sends f t (true ∷ fs) = error
sends f t (false ∷ fs) = f t fs

unfoldable pub select_schedule : ℕ → Tx (Option Schedule)
select_schedule id = sends λ t fs. done (t.schedules id) t fs

unfoldable pub select_seat : ℕ → Seat → Tx (Option ℕ)
select_seat hall s = sends λ t fs. done (t.seat_ids hall s) t fs

abbrev pub on_row : (Schedule → Schedule) → Option Schedule → Option Schedule
on_row f none = none
on_row f (some s) = some (f s)

abbrev pub with_schedule : ℕ → (Schedule → Schedule) → Tables → Tables
with_schedule id f t = record t {
  schedules = λ j. if j == id then on_row f (t.schedules j) else t.schedules j;
}

abbrev pub enough : ℕ → Option Schedule → Bool
enough n none = false
enough n (some s) = ltb 0 n && leb n s.remain_count

-- UPDATE … SET remain_count = remain_count - n WHERE … AND remain_count >= n; whether a row was changed.
-- With n = 0 it keeps its value, and MySQL does not count it.
unfoldable pub take_remain : ℕ → ℕ → Tx Bool
take_remain id n = sends λ t fs.
    if enough n (t.schedules id)
    then done true (with_schedule id (λ s. record s { remain_count = s.remain_count - n }) t) fs
    else done false t fs

unfoldable pub close_schedule : ℕ → Tx (Unit {0})
close_schedule id = sends λ t fs. done tt (with_schedule id (λ s. record s { closed = true }) t) fs

present : Option Schedule → Bool
present none = false
present (some s) = true

-- The foreign keys, and CHECK (reg_count > 0).
unfoldable pub insert_booking : ℕ → ℕ → ℕ → ℕ → Tx (Unit {0})
unfolding present
insert_booking booking_id user_id schedule_id n = sends λ t fs.
    if n == 0
    then error
    else if t.users user_id && present (t.schedules schedule_id)
    then done tt
        (record t {
          bookings =
              (record {
                booking_id = booking_id;
                booking_code = none;
                user_id = user_id;
                schedule_id = schedule_id;
                reg_count = n;
              })
              ∷ t.bookings;
        })
        fs
    else integrity fs

has_code : String → List Booking → Bool
has_code code [] = false
has_code code (b ∷ bs) = elim b.booking_code [
  | none ↦ has_code code bs
  | some c ↦ str_eq c code || has_code code bs
]

unfoldable pub code_bookings : ℕ → String → List Booking → List Booking
code_bookings booking_id code [] = []
code_bookings booking_id code (b ∷ bs) =
    (if b.booking_id == booking_id then record b { booking_code = some code } else b)
    ∷ code_bookings booking_id code bs

unfoldable pub update_code : ℕ → String → Tx (Unit {0})
unfolding has_code code_bookings
update_code booking_id code = sends λ t fs.
    if has_code code t.bookings
    then integrity fs
    else done tt (record t { bookings = code_bookings booking_id code t.bookings }) fs

unfoldable pub taken : ℕ → ℕ → List SeatRow → Bool
taken schedule_id seat_id [] = false
taken schedule_id seat_id (r ∷ rs) =
    (r.schedule_id == schedule_id && r.seat_id == seat_id) || taken schedule_id seat_id rs

-- The unique index of the active seats.
unfoldable pub insert_seat : ℕ → ℕ → ℕ → Tx (Unit {0})
unfolding taken
insert_seat booking_id schedule_id seat_id = sends λ t fs.
    if taken schedule_id seat_id t.active
    then integrity fs
    else done tt
        (record t {
          active =
              (record { schedule_id = schedule_id; seat_id = seat_id; booking_id = booking_id })
              ∷ t.active;
        })
        fs

unfoldable pub insert_payment : ℕ → ℕ → Tx (Unit {0})
insert_payment payment_id booking_id =
    sends λ t fs. done tt (record t { payments = booking_id ∷ t.payments }) fs
