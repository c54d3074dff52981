-- ===== src/Worker/Concert/Taken.antt =====
-- A request for a seat that is sold: the loop of process_concert_booking does not end.
use awstest.Prelude.{
  ℕ, ◌≡◌, refl, ap, ◌∙◌, Bool, true, false, none, some, List, [], ◌∷◌, ◌==◌, ◌||◌, length, arith,
  if◌then◌else◌,
}
use awstest.Cache.{Seat}
use awstest.Booking.{DeskServer}
use awstest.SeatHold.Views.{Server}
use awstest.Worker.Holds.{seats_of}
use awstest.Worker.Recounts.{ConcertShow}
use awstest.Worker.Concert.Tables.{
  ConcertSeat, ConcertTables, duplicate_key, ok, raise, find_ref, is_taken, insert_rows, with_rows,
  insert_concert_booking, insert_concert_seats,
}
use awstest.Worker.Concert.Job.{World, pure, ◌>>◌, catch, write}
use awstest.Worker.Concert.Effects.{Request, Env}
use awstest.Worker.Concert.{
  Assigned, choose_code, unless_duplicate, booking_row, insert_booking, ensure_code, finish,
  recover, book, any_outside, attempt_booking,
}
use awstest.Worker.Concert.Calm.{
  Calm, Gives, Fails, bind-Gives, next-Gives, next-Fails, catch-Gives, write-Calm, write-Fails,
}
use awstest.Worker.Concert.Places.{any_taken}
use awstest.Worker.Concert.Codes.{choose_code-Calm}
use awstest.Worker.Concert.Attempts.{attempt-Calm}

-- The tables refuse the request for a seat that is sold, and for nothing else.
pub record Taken (q : Request) (s : ConcertShow) (t : ConcertTables) : Type 0 where
  pub show : t.shows q.show_id ≡ some s
  pub inside : any_outside s (seats_of q.seats) ≡ false
  pub user : t.users q.user_id ≡ true
  pub new_ref : find_ref q.booking_ref t.bookings ≡ none
  pub sold : any_taken q.show_id (seats_of q.seats) t.active ≡ true

any_taken-more :
    (show_id : ℕ) (ss : List Seat) (row : ConcertSeat) (rows : List ConcertSeat)
    → any_taken show_id ss rows ≡ true
    → any_taken show_id ss (row ∷ rows) ≡ true
unfolding any_taken is_taken
any_taken-more show_id [] row rows h = h
any_taken-more show_id (s ∷ ss) row rows h =
    tested _ (is_taken show_id s rows) _ _ h (any_taken-more show_id ss row rows)
  where
    tested : (x a b b' : Bool) → (a || b) ≡ true → (b ≡ true → b' ≡ true) → ((x || a) || b') ≡ true
    tested true a b b' p f = refl
    tested false true b b' p f = refl
    tested false false b b' p f = f p

insert_rows-taken :
    (b show_id : ℕ) (ss : List Seat) (rows : List ConcertSeat)
    → any_taken show_id ss rows ≡ true
    → insert_rows b show_id ss rows ≡ raise duplicate_key
unfolding any_taken insert_rows
insert_rows-taken b show_id [] rows h = cc
insert_rows-taken b show_id (s ∷ ss) rows h =
    let row : ConcertSeat = record { booking_id = b; show_id = show_id; seat = s } in
    tested (is_taken show_id s rows) h
      (λ p. insert_rows-taken b show_id ss (row ∷ rows) (any_taken-more show_id ss row rows p))
  where
    tested :
        (x : Bool)
        → (x || any_taken show_id ss rows) ≡ true
        → (any_taken show_id ss rows ≡ true
            → insert_rows b show_id ss
                ((record { booking_id = b; show_id = show_id; seat = s }) ∷ rows)
              ≡ raise duplicate_key)
        → (if x
            then raise duplicate_key
            else insert_rows b show_id ss
                ((record { booking_id = b; show_id = show_id; seat = s }) ∷ rows))
          ≡ raise duplicate_key
    tested true p f = refl
    tested false p f = f p

insert_seats-taken :
    (b show_id : ℕ) (ss : List Seat) (t : ConcertTables)
    → any_taken show_id ss t.active ≡ true
    → insert_concert_seats b show_id ss t ≡ raise duplicate_key
unfolding insert_concert_seats any_taken
insert_seats-taken b show_id [] t h = cc
insert_seats-taken b show_id (s ∷ ss) t h =
    ap (with_rows t) (insert_rows-taken b show_id (s ∷ ss) t.active h)

not_empty :
    (show_id : ℕ) (ss : List Seat) (rows : List ConcertSeat)
    → any_taken show_id ss rows ≡ true
    → (length ss == 0) ≡ false
unfolding any_taken
not_empty show_id [] rows h = cc
not_empty show_id (s ∷ ss) rows h = ground arith

module _ (r : DeskServer) (c : Server) (env : Env) (q : Request) (t : ConcertTables) where
  -- The active seats that the connection sees are those that are committed.
  abbrev SameSeats : ConcertTables → Type 0
  SameSeats x = x.active ≡ t.active

  abbrev pub Quietly : World r.Db c.Db → Type 0
  Quietly = Calm t SameSeats

  module _ (s : ConcertShow) (h : Taken q s t) where
    finish-taken :
        (new : Assigned) (b : ℕ) (w : World r.Db c.Db)
        → Quietly w
        → Fails duplicate_key Quietly (finish r c env q s new b "" w)
    unfolding finish ensure_code
    finish-taken new b w p =
        let x = choose_code-Calm r c (λ d. Unit) t SameSeats (λ x bs e i. i) b new.codes w p in
        bind-Gives (Fails duplicate_key Quietly) Quietly x.0 (choose_code b new.codes) w x.1 _
          λ v i.
            next-Fails Quietly duplicate_key
              (write (insert_concert_seats b q.show_id (seats_of q.seats))) v
              (write-Fails t SameSeats v i (insert_concert_seats b q.show_id (seats_of q.seats))
                duplicate_key
                (insert_seats-taken b q.show_id (seats_of q.seats) v.tables
                  (ap (any_taken q.show_id (seats_of q.seats)) i.seen ∙ h.sold)))
              _

    inserts :
        (id : ℕ)
        → insert_concert_booking (booking_row q id) t
          ≡ ok (record t { bookings = booking_row q id ∷ t.bookings })
    unfolding insert_concert_booking
    inserts id =
        rw (not_empty q.show_id (seats_of q.seats) t.active h.sold, h.new_ref, h.user, h.show) refl

    book-taken :
        (new : Assigned) (w : World r.Db c.Db)
        → Calm t (λ x. x ≡ t) w
        → Fails duplicate_key Quietly (book r c env q s new w)
    unfolding book insert_booking
    book-taken new w p =
        let row = booking_row q new.booking_id in
        let u = record t { bookings = row ∷ t.bookings } in
        bind-Gives (Fails duplicate_key Quietly) Quietly true
          (catch (write (insert_concert_booking row) >> pure true) unless_duplicate) w
          (catch-Gives Quietly true (write (insert_concert_booking row) >> pure true)
            unless_duplicate w
            (next-Gives (Gives true Quietly) Quietly tt (write (insert_concert_booking row)) w
              (write-Calm t (λ x. x ≡ t) w p SameSeats (insert_concert_booking row) u
                (ap (insert_concert_booking row) p.seen ∙ inserts new.booking_id) refl)
              (pure true) (λ v i. (v, refl, i))))
          (λ b. elim b [
            | true ↦ finish r c env q s new new.booking_id ""
            | false ↦ recover r c env q s new
          ])
          (finish-taken new new.booking_id)

    pub attempt-taken :
        (new : Assigned) (w : World r.Db c.Db)
        → Calm t (λ x. x ≡ t) w
        → Fails duplicate_key Quietly (attempt_booking r c env q new w)
    attempt-taken new =
        attempt-Calm r c env q t (Fails duplicate_key Quietly) s new h.show h.inside
          (book-taken new)
