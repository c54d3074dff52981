-- ===== src/Worker/Concert/Tables.antt =====
-- The tables of db-schema/create.sql that a concert booking reads and writes. What a statement gives is
-- a row set or an error of MySQL, as pymysql raises it.
use awstest.Prelude.{
  ℕ, String, Bool, true, false, Option, none, some, List, [], ◌∷◌, map, ◌==◌, ◌&&◌, ◌||◌, str_eq,
  if◌then◌else◌,
}
use awstest.Cache.{Seat, same_seat, has_seat}
use awstest.Worker.Recounts.{Shows}

pub record ConcertBooking : Type 0 where
  pub booking_id : ℕ
  pub booking_code : Option String
  pub user_id : ℕ
  pub show_id : ℕ
  pub reg_count : ℕ
  pub cancelled : Bool
  pub sqs_booking_ref : Option String

-- A row of concert_booking_seats whose status is ACTIVE.
pub record ConcertSeat : Type 0 where
  pub booking_id : ℕ
  pub show_id : ℕ
  pub seat : Seat

pub record ConcertPayment : Type 0 where
  pub payment_id : ℕ
  pub booking_id : ℕ
  pub paid : Bool

pub record ConcertTables : Type 0 where
  pub users : ℕ → Bool
  pub shows : Shows
  pub bookings : List ConcertBooking
  pub active : List ConcertSeat
  pub payments : List ConcertPayment

-- OperationalError is `deadlock` (1213) or `operational`; IntegrityError is a duplicate booking reference, another
-- duplicate key (1062), or a foreign key (1452). `exception` is any other.
pub data Raised : Type 0 where
  deadlock operational duplicate_ref duplicate_key foreign_key exception : Raised

pub data Result (A : Type 0) : Type 0 where
  ok : A → Result A
  raise : Raised → Result A

unfoldable pub all_in : List Seat → List Seat → Bool
unfolding has_seat
all_in [] ts = true
all_in (s ∷ ss) ts = has_seat s ts && all_in ss ts

-- Equality of two sets of seats.
unfoldable pub same_seats : List Seat → List Seat → Bool
unfolding all_in
same_seats ss ts = all_in ss ts && all_in ts ss

abbrev pub has_ref : String → ConcertBooking → Bool
has_ref ref b = elim b.sqs_booking_ref [ none ↦ false | some r ↦ str_eq r ref ]

-- SELECT … FROM concert_booking WHERE sqs_booking_ref = %s
unfoldable pub find_ref : String → List ConcertBooking → Option ConcertBooking
find_ref ref [] = none
find_ref ref (b ∷ bs) = if has_ref ref b then some b else find_ref ref bs

-- SELECT … FROM concert_booking_seats WHERE booking_id = %s AND show_id = %s AND the row is active
unfoldable pub seats_of_booking : ℕ → ℕ → List ConcertSeat → List Seat
seats_of_booking b show_id [] = []
seats_of_booking b show_id (r ∷ rs) =
    if r.booking_id == b && r.show_id == show_id
    then r.seat ∷ seats_of_booking b show_id rs
    else seats_of_booking b show_id rs

-- `int(pr["payment_id"]) if pr else 0`
unfoldable pub payment_of : ℕ → List ConcertPayment → ℕ
payment_of b [] = 0
payment_of b (p ∷ ps) = if p.booking_id == b then p.payment_id else payment_of b ps

abbrev pub is_some : {A : Type 0} → Option A → Bool
is_some none = false
is_some (some a) = true

abbrev pub with_bookings : List ConcertBooking → ConcertTables → ConcertTables
with_bookings bs t = record t { bookings = bs }

-- CHECK (reg_count > 0), the unique reference, and the foreign keys
unfoldable pub insert_concert_booking : ConcertBooking → ConcertTables → Result ConcertTables
unfolding find_ref
insert_concert_booking b t =
    if b.reg_count == 0
    then raise operational
    else if elim b.sqs_booking_ref [ none ↦ false | some ref ↦ is_some (find_ref ref t.bookings) ]
    then raise duplicate_ref
    else if t.users b.user_id && is_some (t.shows b.show_id)
    then ok (with_bookings (b ∷ t.bookings) t)
    else raise foreign_key

has_code : String → List ConcertBooking → Bool
has_code code [] = false
has_code code (b ∷ bs) =
    elim b.booking_code [ none ↦ false | some c ↦ str_eq c code ] || has_code code bs

unfoldable pub set_code : ℕ → String → ConcertBooking → ConcertBooking
set_code b code x = if x.booking_id == b then record x { booking_code = some code } else x

-- UPDATE concert_booking SET booking_code = %s WHERE booking_id = %s
unfoldable pub update_concert_code : ℕ → String → ConcertTables → Result ConcertTables
unfolding has_code set_code
update_concert_code b code t =
    if has_code code t.bookings
    then raise duplicate_key
    else ok (with_bookings (map (set_code b code) t.bookings) t)

unfoldable pub is_taken : ℕ → Seat → List ConcertSeat → Bool
is_taken show_id s [] = false
is_taken show_id s (r ∷ rs) = (r.show_id == show_id && same_seat r.seat s) || is_taken show_id s rs

-- One INSERT of several rows; a syntax error if there is none. The unique index of the active seats.
unfoldable pub insert_rows : ℕ → ℕ → List Seat → List ConcertSeat → Result (List ConcertSeat)
unfolding is_taken
insert_rows b show_id [] rows = ok rows
insert_rows b show_id (s ∷ ss) rows =
    let rest =
      insert_rows b show_id ss ((record { booking_id = b; show_id = show_id; seat = s }) ∷ rows) in
    if is_taken show_id s rows then raise duplicate_key else rest

abbrev pub with_rows : ConcertTables → Result (List ConcertSeat) → Result ConcertTables
with_rows t (ok rows) = ok (record t { active = rows })
with_rows t (raise e) = raise e

unfoldable pub insert_concert_seats : ℕ → ℕ → List Seat → ConcertTables → Result ConcertTables
unfolding insert_rows
insert_concert_seats b show_id [] t = raise exception
insert_concert_seats b show_id (s ∷ ss) t = with_rows t (insert_rows b show_id (s ∷ ss) t.active)

unfoldable pub has_payment : ℕ → List ConcertPayment → Bool
has_payment b [] = false
has_payment b (p ∷ ps) = p.booking_id == b || has_payment b ps

-- UNIQUE (booking_id)
unfoldable pub insert_concert_payment : ℕ → ℕ → ConcertTables → Result ConcertTables
unfolding has_payment
insert_concert_payment payment_id b t =
    if has_payment b t.payments
    then raise duplicate_key
    else ok (record t {
      payments = (record { payment_id = payment_id; booking_id = b; paid = true }) ∷ t.payments;
    })
