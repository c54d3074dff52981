-- ===== src/Worker/Concert/Lookups.antt =====
-- What SELECT finds of a booking that is there.
use awstest.Prelude.{
  ℕ, String, ◌≡◌, ◌≢◌, refl, sym, ◌∙◌, Bool, true, false, none, some, List, [], ◌∷◌, map, ◌==◌,
  arith, if◌then◌else◌,
}
use awstest.Cache.{Seat}
use awstest.Worker.Concert.Tables.{ConcertBooking, ConcertSeat, has_ref, find_ref, seats_of_booking}
use awstest.Worker.Concert.Triples.{line_of}
use awstest.Worker.Concert.Frames.{rows_of}

pub equal_self : (a : ℕ) → (a == a) ≡ true
equal_self a = ground arith

pub find_ref-line_none :
    (ref : String) (bs : List ConcertBooking)
    → find_ref ref bs ≡ none
    → find_ref ref (map line_of bs) ≡ none
unfolding find_ref
find_ref-line_none ref [] e = refl
find_ref-line_none ref (x ∷ bs) e = tested (has_ref ref x) (find_ref-line_none ref bs) e
  where
    tested :
        (t : Bool)
        → (find_ref ref bs ≡ none → find_ref ref (map line_of bs) ≡ none)
        → (if t then some x else find_ref ref bs) ≡ none
        → (if t then some (line_of x) else find_ref ref (map line_of bs)) ≡ none
    tested true h p = cc
    tested false h p = h p

module _ (b show_id : ℕ) where
  first_seat :
      (s : Seat) (rows : List ConcertSeat)
      → seats_of_booking b show_id ((record { booking_id = b; show_id = show_id; seat = s }) ∷ rows)
        ≢ []
  unfolding seats_of_booking
  first_seat s rows p = clash (sym (rw (equal_self b, equal_self show_id) refl) ∙ p)
    where
      clash : s ∷ seats_of_booking b show_id rows ≡ [] → ⊥
      clash q = cc

  rows_of-seats :
      (ss : List Seat) (rows : List ConcertSeat)
      → seats_of_booking b show_id rows ≢ []
      → seats_of_booking b show_id (rows_of b show_id ss rows) ≢ []
  unfolding rows_of
  rows_of-seats [] rows h = h
  rows_of-seats (s ∷ ss) rows h = rows_of-seats ss _ (first_seat s rows)

  -- A booking of at least one seat has a seat.
  pub has_seats :
      (ss : List Seat) (rows : List ConcertSeat)
      → ss ≢ []
      → seats_of_booking b show_id (rows_of b show_id ss rows) ≢ []
  unfolding rows_of
  has_seats [] rows h = absurd (h refl)
  has_seats (s ∷ ss) rows h = rows_of-seats ss _ (first_seat s rows)
