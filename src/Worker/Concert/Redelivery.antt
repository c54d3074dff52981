-- ===== src/Worker/Concert/Redelivery.antt =====
-- A message that is delivered again, after its booking is complete in the tables.
use awstest.Prelude.{
  ℕ, suc, String, ◌≡◌, refl, sym, ap, subst, ◌∙◌, ◌⊎◌, inl, inr, Bool, true, false, some, List, [],
  ◌∷◌, ◌==◌, ◌&&◌, length, if◌then◌else◌,
}
use awstest.Cache.{Seat}
use awstest.Redis.Spares.{value_of}
use awstest.Booking.{result, Booked, booked, DeskServer}
use awstest.SeatHold.Views.{Server}
use awstest.Worker.Holds.{seats_of}
use awstest.Worker.Recounts.{ConcertShow}
use awstest.Worker.Concert.Tables.{
  ConcertBooking, ConcertTables, duplicate_ref, Result, ok, find_ref, seats_of_booking, payment_of,
  same_seats, insert_concert_booking,
}
use awstest.Worker.Concert.Job.{World, pure, throw, ◌>>=◌, ◌>>◌, select, write, commit, rollback}
use awstest.Worker.Concert.Effects.{Request, Env, Here, store, confirm, get_remain}
use awstest.Worker.Concert.Recovery.{
  code_or_empty, known_ok, store_found, complete, mismatch, resume,
}
use awstest.Worker.Concert.{
  Assigned, any_outside, unless_duplicate, booking_row, insert_booking, finish, check_owner,
  resume_found, recover, book, process_concert_booking,
}
use awstest.Worker.Concert.Calm.{
  CalmAt, Calm, Gives, Fails, bind-Gives, next-Gives, next-Fails, catch-Fails, select-Calm,
  rollback-Calm, commit-Calm, write-Fails,
}
use awstest.Worker.Concert.Settling.{get_remain-Settles, confirm-Settles}
use awstest.Worker.Concert.Storing.{Shows, store-Shows}
use awstest.Worker.Concert.Known.{known-Calm}
use awstest.Worker.Concert.Attempts.{attempt-Calm, rounds-Calm}

-- The tables have the booking of the request, with its seats.
pub record Complete (q : Request) (s : ConcertShow) (b : ConcertBooking) (t : ConcertTables)
    : Type 0 where
  pub show : t.shows q.show_id ≡ some s
  pub inside : any_outside s (seats_of q.seats) ≡ false
  pub some_seat : (length (seats_of q.seats) == 0) ≡ false
  pub found : find_ref q.booking_ref t.bookings ≡ some b
  pub owner : (b.user_id == q.user_id && b.show_id == q.show_id) ≡ true
  pub seats :
      same_seats (seats_of_booking b.booking_id q.show_id t.active) (seats_of q.seats) ≡ true

module _ (r : DeskServer) (c : Server) (env : Env) (q : Request) (t : ConcertTables)
    (s : ConcertShow) (b : ConcertBooking) (h : Complete q s b t) where
  abbrev Steady : World r.Db c.Db → Type 0
  Steady = Calm t (λ x. x ≡ t)

  -- Nothing is written, and the result is OK.
  abbrev Reported : World r.Db c.Db → Type 0
  Reported v = (x : Booked) × CalmAt t (λ y. y ≡ t) (Shows r c env q x) v

  abbrev Reports : Here r c (Unit {0}) → Type 0
  Reports m = (w : World r.Db c.Db) → Steady w → Gives tt Reported (m w)

  packed :
      {A : Type 0} (a : A) (x : Booked) (m : Result A × World r.Db c.Db)
      → Gives a (CalmAt t (λ y. y ≡ t) (Shows r c env q x)) m
      → Gives a Reported m
  packed a x m g = (g.0, g.1, (x, g.2))

  stores_anew :
      (code : String) (payment_id : ℕ)
      → Reports
          (store_found r c env q b.booking_id code payment_id >> confirm r c env q s.concert_id)
  unfolding store_found
  stores_anew code payment_id w p =
      let T : ConcertTables → Type 0 = λ y. y ≡ t in
      let n = get_remain-Settles r c env q t T (λ d. Unit) w p in
      let x : Booked = record {
        booking_id = b.booking_id;
        booking_code = code;
        payment_id = payment_id;
        remain_count_after = n.0;
      } in
      let G = CalmAt t T (Shows r c env q x) in
      packed tt x _ (
        next-Gives (Gives tt G) G tt (store_found r c env q b.booking_id code payment_id) w
          (bind-Gives (Gives tt G) (Calm t T) n.0 (get_remain r c env q) w n.1
            (λ m. store r c env q (
              booked (record {
                booking_id = b.booking_id;
                booking_code = code;
                payment_id = payment_id;
                remain_count_after = m;
              })))
            (store-Shows r c env q t T x))
          (confirm r c env q s.concert_id)
          (confirm-Settles r c env q t T (Shows r c env q x) s.concert_id))

  complete-Reports : Reports (complete r c env q s.concert_id b)
  unfolding complete
  complete-Reports w p =
      bind-Gives (Gives tt Reported) Steady _ (select (λ x. payment_of b.booking_id x.payments)) w
        (select-Calm t T w p _) after_payment
        λ v i.
          next-Gives (Gives tt Reported) Steady tt commit v (commit-Calm t T v i i.seen) _ λ u j.
            by_known _ u (
              known-Calm r c env q t T u j confirms
                (λ x z k. confirm-Settles r c env q t T (Shows r c env q x) s.concert_id z k))
    where
      T : ConcertTables → Type 0
      T y = y ≡ t

      confirms : Here r c (Unit {0})
      confirms = confirm r c env q s.concert_id

      goes_on : ℕ → Bool → Here r c (Unit {0})
      goes_on payment_id known = elim known [
        | true ↦ pure tt
        | false ↦
            store_found r c env q b.booking_id (code_or_empty b.booking_code) payment_id >> confirms
      ]

      after_payment : ℕ → Here r c (Unit {0})
      after_payment payment_id = commit >> (known_ok r c env q confirms >>= goes_on payment_id)

      by_known :
          (payment_id : ℕ) (u : World r.Db c.Db)
          → ((x : Booked) × Gives true
                (CalmAt t T (Shows r c env q x))
                (known_ok r c env q confirms u))
            ⊎ Gives false Steady (known_ok r c env q confirms u)
          → Gives tt Reported ((known_ok r c env q confirms >>= goes_on payment_id) u)
      by_known payment_id u (inl (x, g)) =
          bind-Gives (Gives tt Reported) (CalmAt t T (Shows r c env q x)) true
            (known_ok r c env q confirms) u g (goes_on payment_id) (λ v i. (v, refl, (x, i)))
      by_known payment_id u (inr g) =
          bind-Gives (Gives tt Reported) Steady false (known_ok r c env q confirms) u g
            (goes_on payment_id) (stores_anew (code_or_empty b.booking_code) payment_id)

  abbrev RaisesDuplicate : Here r c (Unit {0}) → Type 0
  RaisesDuplicate m = (w : World r.Db c.Db) → Steady w → Fails duplicate_ref Steady (m w)

  insert-duplicate : (id : ℕ) → RaisesDuplicate (write (insert_concert_booking (booking_row q id)))
  unfolding insert_concert_booking
  insert-duplicate id w p =
      write-Fails t (λ y. y ≡ t) w p (insert_concert_booking (booking_row q id)) duplicate_ref
        (ap (insert_concert_booking (booking_row q id)) p.seen ∙ rw (h.some_seat, h.found) refl)

  not_inserted :
      (id : ℕ) (w : World r.Db c.Db) → Steady w → Gives false Steady (insert_booking r c env q id w)
  unfolding insert_booking unless_duplicate
  not_inserted id w p =
      let inserts = write (insert_concert_booking (booking_row q id)) in
      catch-Fails (Gives false Steady) Steady duplicate_ref (inserts >> pure true) unless_duplicate
        w (next-Fails Steady duplicate_ref inserts w (insert-duplicate id w p) (pure true))
        (λ v i. (v, refl, i))

  resume-Reports : (new : Assigned) → Reports (resume_found r c env q s new b)
  unfolding resume_found resume
  resume-Reports new w p =
      bind-Gives (Gives tt Reported) Steady _
        (select (λ x. seats_of_booking b.booking_id q.show_id x.active)) w
        (select-Calm t (λ y. y ≡ t) w p _) (λ have. resume r c env q s.concert_id b have rest)
        λ v i.
          subst
            (λ (a : Bool).
              Gives tt Reported
                (continued a (seats_of_booking b.booking_id q.show_id w.tables.active) v))
            (sym (
              ap
                (λ x.
                  same_seats (seats_of_booking b.booking_id q.show_id x.active) (seats_of q.seats))
                p.seen
              ∙ h.seats))
            (complete-Reports v i)
    where
      rest : Here r c (Unit {0})
      rest = finish r c env q s new b.booking_id (code_or_empty b.booking_code)

      continued : Bool → List Seat → Here r c (Unit {0})
      continued same have =
          if same
          then complete r c env q s.concert_id b
          else elim have [ [] ↦ rest | x ∷ xs ↦ mismatch r c env q ]

  recover-Reports : (new : Assigned) → Reports (recover r c env q s new)
  unfolding recover check_owner
  recover-Reports new w p =
      next-Gives (Gives tt Reported) Steady tt rollback w (rollback-Calm t (λ y. y ≡ t) w p) _
        λ v i.
          bind-Gives (Gives tt Reported) Steady _ (select (λ x. find_ref q.booking_ref x.bookings))
            v (select-Calm t (λ y. y ≡ t) v i _)
            (λ o. check_owner r c env q o >>= resume_found r c env q s new)
            λ u j.
              subst
                (λ o.
                  Gives tt Reported ((check_owner r c env q o >>= resume_found r c env q s new) u))
                (sym (ap (λ x. find_ref q.booking_ref x.bookings) i.seen ∙ h.found))
                (bind-Gives (Gives tt Reported) Steady b (check_owner r c env q (some b)) u
                  (owned u j) (resume_found r c env q s new) (resume-Reports new))
    where
      owned : (u : World r.Db c.Db) → Steady u → Gives b Steady (check_owner r c env q (some b) u)
      owned u j =
          subst (λ (x : Bool). Gives b Steady ((if x then pure b else throw duplicate_ref) u))
            (sym h.owner) (u, refl, j)

  book-Reports : (new : Assigned) → Reports (book r c env q s new)
  unfolding book
  book-Reports new w p =
      bind-Gives (Gives tt Reported) Steady false (insert_booking r c env q new.booking_id) w
        (not_inserted new.booking_id w p)
        (λ x. elim x [
          | true ↦ finish r c env q s new new.booking_id ""
          | false ↦ recover r c env q s new
        ])
        (recover-Reports new)

  -- If the tables have the booking of the request with its seats (at least one, all in the hall),
  -- and no statement and no request to the booking database fails, then process_concert_booking
  -- returns in the first round, changes no committed table, and the result of the reference is OK.
  pub redelivery-reports_ok :
      (new : ℕ → Assigned) (n : ℕ) (w : World r.Db c.Db)
      → w.committed ≡ t
      → w.statements ≡ []
      → w.desk_faults ≡ []
      → let o = process_concert_booking r c env q new (suc n) w in
        (o.0 ≡ ok true) × (o.1.committed ≡ t) × ((x : Booked) × Shows r c env q x o.1.desk)
  unfolding process_concert_booking
  redelivery-reports_ok new n w e st ds =
      let calm : Calm t (λ y. Unit) w = record {
        statements = st;
        requests = ds;
        committed = e;
        seen = tt;
        stored = tt;
      } in
      let g =
        rounds-Calm r c env q t Reported new n 1
          (attempt-Calm r c env q t (Gives tt Reported) s (new 1) h.show h.inside
            (book-Reports (new 1)))
          w calm in
      (
        ap (λ x. x.0) g.1,
        ap (λ x. x.1.committed) g.1 ∙ g.2.1.committed,
        (g.2.0, ap (λ x. value_of (r.look x.1.desk (result q.booking_ref))) g.1 ∙ g.2.1.stored),
      )
