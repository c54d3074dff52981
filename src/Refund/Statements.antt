-- ===== src/Refund/Statements.antt =====
-- The statements of `_refund_concert_booking`, on the tables of the concert bookings.
use awstest.Prelude.{
  ℕ, ◌-◌, ◌+◌, Bool, true, false, Option, none, some, List, [], ◌∷◌, map, ltb, ◌==◌, ◌&&◌,
  if◌then◌else◌,
}
use awstest.Cache.{Seat}
use awstest.Worker.Recounts.{ConcertShow, Shows}
use awstest.Worker.Concert.Tables.{
  ConcertBooking, ConcertSeat, ConcertPayment, ConcertTables, Result, ok,
}

-- SELECT … FROM concert_booking WHERE booking_id = %s AND user_id = %s
unfoldable pub find_own : ℕ → ℕ → List ConcertBooking → Option ConcertBooking
find_own user_id booking_id [] = none
find_own user_id booking_id (b ∷ bs) =
    if b.booking_id == booking_id && b.user_id == user_id
    then some b
    else find_own user_id booking_id bs

-- SELECT concert_id FROM concert_shows WHERE show_id = %s
unfoldable pub concert_of : ℕ → ConcertTables → ℕ
concert_of show_id t = elim (t.shows show_id) [ none ↦ 0 | some s ↦ s.concert_id ]

-- The seats of the active rows, those of positive numbers.
unfoldable pub seats_with : ℕ → List ConcertSeat → List Seat
seats_with booking_id [] = []
seats_with booking_id (r ∷ rs) =
    if r.booking_id == booking_id && (ltb 0 r.seat.0 && ltb 0 r.seat.1)
    then r.seat ∷ seats_with booking_id rs
    else seats_with booking_id rs

unfoldable pub cancelled_row : ℕ → ConcertBooking → ConcertBooking
cancelled_row booking_id b = if b.booking_id == booking_id then record b { cancelled = true } else b

unfoldable pub cancel_booking : ℕ → ConcertTables → Result ConcertTables
unfolding cancelled_row
cancel_booking booking_id t = ok (record t { bookings = map (cancelled_row booking_id) t.bookings })

unfoldable pub unpaid_row : ℕ → ConcertPayment → ConcertPayment
unpaid_row booking_id p = if p.booking_id == booking_id then record p { paid = false } else p

unfoldable pub cancel_payment : ℕ → ConcertTables → Result ConcertTables
unfolding unpaid_row
cancel_payment booking_id t = ok (record t { payments = map (unpaid_row booking_id) t.payments })

-- The active rows that are left.
unfoldable pub without : ℕ → List ConcertSeat → List ConcertSeat
without booking_id [] = []
without booking_id (r ∷ rs) =
    if r.booking_id == booking_id then without booking_id rs else r ∷ without booking_id rs

unfoldable pub cancel_seats : ℕ → ConcertTables → Result ConcertTables
unfolding without
cancel_seats booking_id t = ok (record t { active = without booking_id t.active })

-- SELECT COUNT(*) FROM concert_booking_seats WHERE show_id = … AND the row is active
unfoldable pub count_active : ℕ → List ConcertSeat → ℕ
count_active show_id [] = 0
count_active show_id (r ∷ rs) =
    if r.show_id == show_id then 1 + count_active show_id rs else count_active show_id rs

abbrev on_show : (ConcertShow → ConcertShow) → Option ConcertShow → Option ConcertShow
on_show f none = none
on_show f (some s) = some (f s)

unfoldable pub update_show : ℕ → (ConcertShow → ConcertShow) → Shows → Shows
update_show show_id f shows j = if j == show_id then on_show f (shows j) else shows j

-- remain_count = GREATEST(0, total_count - …)
unfoldable pub recount : ℕ → ConcertTables → Result ConcertTables
unfolding update_show count_active
recount show_id t = ok (record t {
  shows =
      update_show show_id
        (λ s. record s { remain_count = s.total_count - count_active show_id t.active }) t.shows;
})

unfoldable pub remain_of : ℕ → ConcertTables → ℕ
remain_of show_id t = elim (t.shows show_id) [ none ↦ 0 | some s ↦ s.remain_count ]

unfoldable pub set_status : ℕ → Bool → ConcertTables → Result ConcertTables
unfolding update_show
set_status show_id closes t =
    ok (record t { shows = update_show show_id (λ s. record s { closed = closes }) t.shows })
