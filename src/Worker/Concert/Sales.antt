-- ===== src/Worker/Concert/Sales.antt =====
-- A request for free seats, of which nothing fails: it is booked in the first round.
use awstest.Prelude.{
  ℕ, suc, ◌≡◌, refl, ap, ◌∙◌, true, false, none, some, [], ◌∷◌, All, ◌==◌, length, if◌then◌else◌,
}
use awstest.Redis.Spares.{value_of}
use awstest.Booking.{result, Booked, DeskServer}
use awstest.SeatHold.Views.{Server}
use awstest.Worker.Holds.{seats_of}
use awstest.Worker.Recounts.{ConcertShow}
use awstest.Worker.Closing.Returns.{Connects}
use awstest.Worker.Concert.Tables.{
  ConcertPayment, ConcertTables, duplicate_key, ok, raise, find_ref, has_payment, with_bookings,
  insert_concert_booking, insert_concert_seats, insert_concert_payment,
}
use awstest.Worker.Concert.Job.{World, pure, ◌>>◌, catch, write}
use awstest.Worker.Concert.Effects.{Request, Env}
use awstest.Worker.Concert.{
  Assigned, any_outside, choose_code, unless_duplicate, booking_row, insert_booking, ensure_code,
  finish, recover, book, process_concert_booking,
}
use awstest.Worker.Concert.Triples.{Frame, frame_of}
use awstest.Worker.Concert.Frames.{listed, paid, seated, rows_of}
use awstest.Worker.Concert.Once.{booked_as}
use awstest.Worker.Concert.Calm.{Calm, Gives, bind-Gives, next-Gives, catch-Gives, write-Calm}
use awstest.Worker.Concert.Storing.{Shows as HasResult}
use awstest.Worker.Concert.Places.{any_taken, no_twice, insert_seats-free}
use awstest.Worker.Concert.Codes.{choose_code-Calm}
use awstest.Worker.Concert.Ending.{Booking, end, ends}
use awstest.Worker.Concert.Attempts.{Steady, attempt-Calm, rounds-Calm}

-- The tables can take the request: `new` has the numbers that AUTO_INCREMENT assigns.
pub record Fresh (q : Request) (s : ConcertShow) (new : Assigned) (t : ConcertTables) : Type 0 where
  pub show : t.shows q.show_id ≡ some s
  pub inside : any_outside s (seats_of q.seats) ≡ false
  pub user : t.users q.user_id ≡ true
  pub new_ref : find_ref q.booking_ref t.bookings ≡ none
  pub some_seat : (length (seats_of q.seats) == 0) ≡ false
  pub free : any_taken q.show_id (seats_of q.seats) t.active ≡ false
  pub apart : no_twice (seats_of q.seats) ≡ true
  pub unpaid : has_payment new.booking_id t.payments ≡ false

module _ (r : DeskServer) (c : Server) (env : Env) (q : Request) (new : Assigned) where
  module _ (t : ConcertTables) (s : ConcertShow) (h : Fresh q s new t)
      (connects : All Connects env.closings) where
    abbrev f : Frame
    f = frame_of t

    abbrev g1 : Frame
    g1 = listed f (booking_row q new.booking_id)

    abbrev g2 : Frame
    g2 = seated new.booking_id q.show_id (seats_of q.seats) g1

    abbrev g3 : Frame
    g3 = booked_as q new f

    abbrev Seen : Frame → World r.Db c.Db → Type 0
    Seen g = Calm t (λ x. frame_of x ≡ g)

    abbrev Sold : World r.Db c.Db → Type 0
    Sold = Booking r c env q new g3

    pays :
        (w : World r.Db c.Db)
        → Seen g2 w
        → Gives tt (Seen g3) (write (insert_concert_payment new.payment_id new.booking_id) w)
    unfolding insert_concert_payment
    pays w p =
        let paid_row : ConcertPayment = record {
          payment_id = new.payment_id;
          booking_id = new.booking_id;
          paid = true;
        } in
        let u : ConcertTables = record (w.tables) { payments = paid_row ∷ w.tables.payments } in
        write-Calm t (λ x. frame_of x ≡ g2) w p (λ x. frame_of x ≡ g3)
          (insert_concert_payment new.payment_id new.booking_id) u
          (ap (λ b. if b then raise duplicate_key else ok u)
            (ap (λ x. has_payment new.booking_id x.payments) p.seen ∙ h.unpaid))
          (ap (λ x. paid x new.payment_id new.booking_id) p.seen)

    seats :
        (w : World r.Db c.Db)
        → Seen g1 w
        → Gives tt
            (Seen g2)
            (write (insert_concert_seats new.booking_id q.show_id (seats_of q.seats)) w)
    seats w p =
        let ss = seats_of q.seats in
        write-Calm t (λ x. frame_of x ≡ g1) w p (λ x. frame_of x ≡ g2)
          (insert_concert_seats new.booking_id q.show_id ss)
          (record (w.tables) { active = rows_of new.booking_id q.show_id ss w.tables.active })
          (insert_seats-free new.booking_id q.show_id ss w.tables h.some_seat
            (ap (λ x. any_taken q.show_id ss x.active) p.seen ∙ h.free) h.apart)
          (ap (seated new.booking_id q.show_id ss) p.seen)

    finish-books :
        (w : World r.Db c.Db)
        → Seen g1 w
        → Gives tt Sold (finish r c env q s new new.booking_id "" w)
    unfolding finish ensure_code
    finish-books w p =
        let code =
          choose_code-Calm r c (λ d. Unit) t (λ x. frame_of x ≡ g1)
            (λ x bs e i. ap (λ ls. record (frame_of x) { lines = ls }) e ∙ i) new.booking_id
            new.codes w p in
        let sits = write (insert_concert_seats new.booking_id q.show_id (seats_of q.seats)) in
        let pay = write (insert_concert_payment new.payment_id new.booking_id) in
        bind-Gives (Gives tt Sold) (Seen g1) code.0 (choose_code new.booking_id new.codes) w code.1
          (λ x. sits >> (pay >> end r c env q new s x))
          λ v i.
            next-Gives (Gives tt Sold) (Seen g2) tt sits v (seats v i)
              (pay >> end r c env q new s (code.0))
              λ u j.
                next-Gives (Gives tt Sold) (Seen g3) tt pay u (pays u j)
                  (end r c env q new s (code.0)) (ends r c env q new t s g3 connects code.0)

    inserts :
        insert_concert_booking (booking_row q new.booking_id) t
        ≡ ok (with_bookings (booking_row q new.booking_id ∷ t.bookings) t)
    unfolding insert_concert_booking
    inserts = rw (h.some_seat, h.new_ref, h.user, h.show) refl

    book-books :
        (w : World r.Db c.Db) → Steady r c env q t w → Gives tt Sold (book r c env q s new w)
    unfolding book insert_booking
    book-books w p =
        let insert = write (insert_concert_booking (booking_row q new.booking_id)) in
        bind-Gives (Gives tt Sold) (Seen g1) true (catch (insert >> pure true) unless_duplicate) w
          (catch-Gives (Seen g1) true (insert >> pure true) unless_duplicate w (
            next-Gives (Gives true (Seen g1)) (Seen g1) tt insert w
              (write-Calm t (λ x. x ≡ t) w p (λ x. frame_of x ≡ g1)
                (insert_concert_booking (booking_row q new.booking_id))
                (with_bookings (booking_row q new.booking_id ∷ t.bookings) t)
                (ap (insert_concert_booking (booking_row q new.booking_id)) p.seen ∙ inserts) refl)
              (pure true) (λ v i. (v, refl, i))))
          (λ b. elim b [
            | true ↦ finish r c env q s new new.booking_id ""
            | false ↦ recover r c env q s new
          ])
          finish-books

-- If the tables can take the request (its user, its show and its seats are there, the seats are
-- free and different, and no booking has its reference), no statement and no request to the
-- booking database fails, and the closing of the show gets its connections, then
-- process_concert_booking returns in the first round, the request is booked and paid with the
-- numbers that MySQL assigns, and the result of the reference is OK with these numbers.
pub concert-books_free :
    (r : DeskServer) (c : Server) (env : Env) (q : Request) (t : ConcertTables) (s : ConcertShow)
    (new : ℕ → Assigned) (n : ℕ) (w : World r.Db c.Db)
    → Fresh q s (new 1) t
    → All Connects env.closings
    → w.committed ≡ t
    → w.statements ≡ []
    → w.desk_faults ≡ []
    → let o = process_concert_booking r c env q new (suc n) w in
      (o.0 ≡ ok true)
      × (frame_of o.1.committed ≡ booked_as q (new 1) (frame_of t))
      × ((x : Booked) × (x.booking_id ≡ (new 1).booking_id)
          × (x.payment_id ≡ (new 1).payment_id)
          × HasResult r c env q x o.1.desk)
unfolding process_concert_booking
concert-books_free r c env q t s new n w h connects e st ds =
    let calm : Calm t (λ y. Unit) w = record {
      statements = st;
      requests = ds;
      committed = e;
      seen = tt;
      stored = tt;
    } in
    let Done = Booking r c env q (new 1) (booked_as q (new 1) (frame_of t)) in
    let g =
      rounds-Calm r c env q t Done new n 1
        (attempt-Calm r c env q t (Gives tt Done) s (new 1) h.show h.inside
          (book-books r c env q (new 1) t s h connects))
        w calm in
    (
      ap (λ x. x.0) g.1,
      ap (λ x. frame_of x.1.committed) g.1 ∙ g.2.0,
      (
        g.2.1.0,
        g.2.1.1,
        g.2.1.2,
        ap (λ x. value_of (r.look x.1.desk (result q.booking_ref))) g.1 ∙ g.2.1.3,
      ),
    )
