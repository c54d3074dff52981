-- ===== src/Worker/Concert/Again.antt =====
-- A booking that is in the tables is not booked again, and so each round of the loop, and all rounds.
use awstest.Prelude.{
  ℕ, ◌≡◌, ◌≢◌, inl, inr, refl, sym, ap, ◌∙◌, Bool, true, false, Option-cases, Option, none, some,
  List, [], ◌∷◌, str_eq_iff, if◌then◌else◌,
}
use awstest.Cache.{Seat}
use awstest.Booking.{failed, DeskServer}
use awstest.SeatHold.Views.{Server}
use awstest.Worker.Holds.{seats_of}
use awstest.Worker.Recounts.{ConcertShow}
use awstest.Worker.Concert.Tables.{
  ConcertBooking, ConcertTables, Raised, duplicate_ref, duplicate_key, foreign_key, deadlock,
  operational, exception, ok, raise, find_ref, seats_of_booking, same_seats, is_some,
  insert_concert_booking,
}
use awstest.Worker.Concert.Job.{World, pure, throw, ◌>>=◌, commit, rollback}
use awstest.Worker.Concert.Effects.{Request, Env, Here, fail}
use awstest.Worker.Concert.Recovery.{code_or_empty, complete, mismatch, resume}
use awstest.Worker.Concert.{
  Assigned, unless_duplicate, booking_row, insert_booking, finish, check_owner, resume_found,
  recover, book,
}
use awstest.Worker.Concert.Triples.{
  Frame, frame_of, Ends, ends, raises, Triple, weaken, bind-Triple, next-Triple, catch-Triple,
  Committed, pure-Quiet, elim-Quiet, next-Quiet, bind-Quiet,
}
use awstest.Worker.Concert.Frames.{Held, Lands, select-Held, write-Held, rollback-Held, commit-Held}
use awstest.Worker.Concert.Quiet.{confirm-Quiet, known_ok-Quiet, store_found-Quiet, fail-Quiet}
use awstest.Worker.Concert.Once.{booked_as, find_ref-line_of}
use awstest.Worker.Concert.Lookups.{find_ref-line_none, has_seats}

module _ (r : DeskServer) (c : Server) (env : Env) (q : Request) (f : Frame) (old : Assigned)
    (valid : seats_of q.seats ≢ []) where
  abbrev g : Frame
  g = booked_as q old f

  abbrev Sold : World r.Db c.Db → Type 0
  Sold = Held g g

  abbrev Kept : World r.Db c.Db → Type 0
  Kept = Committed (λ x. x ≡ g)

  found_self : find_ref q.booking_ref g.lines ≡ some (booking_row q old.booking_id)
  unfolding find_ref
  found_self = rw ((str_eq_iff q.booking_ref q.booking_ref).1 refl) refl

  is_found :
      (t : ConcertTables) → frame_of t ≡ g → is_some (find_ref q.booking_ref t.bookings) ≡ true
  is_found t e = elim (Option-cases (find_ref q.booking_ref t.bookings)) [
    | inl p ↦ absurd (
        clash (
          sym found_self
          ∙ ap (λ x. find_ref q.booking_ref x.lines) (sym e)
          ∙ find_ref-line_none q.booking_ref t.bookings p))
    | inr (b, p) ↦ rw p refl
  ]
    where
      clash : {x : ConcertBooking} → some x ≡ none → ⊥
      clash y = cc

  refused :
      (id : ℕ) (t : ConcertTables)
      → frame_of t ≡ g
      → Lands (λ x. ⊥) (insert_concert_booking (booking_row q id) t)
  unfolding insert_concert_booking
  refused id t e = tested _ _ _ (is_found t e)
    where
      tested :
          (x y z : Bool)
          → y ≡ true
          → Lands
              (λ x. ⊥)
              (if x
                then raise operational
                else if y
                then raise duplicate_ref
                else if z
                then ok (record t { bookings = booking_row q id ∷ t.bookings })
                else raise foreign_key)
      tested true y z p = tt
      tested false true z p = tt
      tested false false z p = absurd (false_true p)
        where
          false_true : false ≡ true → ⊥
          false_true i = cc

  abbrev NotInserted : Bool → World r.Db c.Db → Type 0
  NotInserted b w = (b ≡ false) × Sold w

  not_duplicate : (e : Raised) → Triple Sold (unless_duplicate e) NotInserted Sold
  unfolding unless_duplicate
  not_duplicate duplicate_ref w p = ends (refl, p)
  not_duplicate deadlock w p = raises p
  not_duplicate operational w p = raises p
  not_duplicate duplicate_key w p = raises p
  not_duplicate foreign_key w p = raises p
  not_duplicate exception w p = raises p

  insert_booking-Sold : (id : ℕ) → Triple Sold (insert_booking r c env q id) NotInserted Sold
  unfolding insert_booking
  insert_booking-Sold id =
      catch-Triple Sold NotInserted Sold Sold _ unless_duplicate
        (next-Triple Sold (λ a w. (frame_of w.committed ≡ g) × ⊥) NotInserted Sold _ (pure true)
          (write-Held g g (λ x. ⊥) _ (refused id)) (λ a w p. absurd p.1))
        not_duplicate

  abbrev Same : ConcertBooking → World r.Db c.Db → Type 0
  Same b w = Sold w × (b.booking_id ≡ old.booking_id)

  found_again :
      (t : ConcertTables) (o : Option ConcertBooking)
      → frame_of t ≡ g
      → o ≡ find_ref q.booking_ref t.bookings
      → Triple Sold (check_owner r c env q o) Same Sold
  unfolding check_owner
  found_again t none e p w i = raises i
  found_again t (some b) e p w i = tested _ w i
    where
      id_of : Option ConcertBooking → ℕ
      id_of none = 0
      id_of (some x) = x.booking_id

      same : b.booking_id ≡ old.booking_id
      same = ap id_of (
          sym (find_ref-line_of q.booking_ref t.bookings b (sym p))
          ∙ ap (λ x. find_ref q.booking_ref x.lines) e
          ∙ found_self)

      tested :
          (x : Bool) (w : World r.Db c.Db)
          → Sold w
          → Ends Same Sold ((if x then pure b else throw duplicate_ref) w)
      tested true w j = ends (j, same)
      tested false w j = raises j

  complete-Sold :
      (cid : ℕ) (b : ConcertBooking) → Triple Sold (complete r c env q cid b) (λ a. Kept) Kept
  unfolding complete
  complete-Sold cid b =
      bind-Triple Sold (λ a. Sold) (λ a. Kept) Kept _ _
        (weaken Sold _ (λ a. Sold) Sold Kept _ (select-Held g g _) (λ a w p. p.0) (λ w p. p.0))
        λ payment_id.
          next-Triple Sold (λ a. Kept) (λ a. Kept) Kept commit _
            (weaken Sold (λ a. Kept) (λ a. Kept) Sold Kept commit (commit-Held g g) (λ a w p. p)
              (λ w p. p.0))
            λ a.
              bind-Quiet (λ x. x ≡ g) _ _
                (known_ok-Quiet (λ x. x ≡ g) r c env q _ (confirm-Quiet (λ x. x ≡ g) r c env q cid))
                (λ k.
                  elim-Quiet (λ x. x ≡ g) k (pure tt) _ (pure-Quiet (λ x. x ≡ g) tt)
                    (next-Quiet (λ x. x ≡ g) _ _ (store_found-Quiet (λ x. x ≡ g) r c env q _ _ _)
                      (confirm-Quiet (λ x. x ≡ g) r c env q cid)))

  abbrev Still : {A : Type 0} → Here r c A → Type 0
  Still m = Triple Sold m (λ a. Kept) Kept

  mismatch-Sold : Still (mismatch r c env q)
  unfolding mismatch
  mismatch-Sold =
      let v = failed "ERROR" "idempotent_seat_mismatch" in
      next-Triple Sold (λ a. Sold) (λ a. Kept) Kept rollback (fail r c env q v)
        (weaken Sold (λ a. Sold) (λ a. Sold) Sold Kept rollback (rollback-Held g g) (λ a w p. p)
          (λ w p. p.0))
        (λ a w p. fail-Quiet (λ x. x ≡ g) r c env q v w p.0)

  resume-Sold :
      (cid : ℕ) (b : ConcertBooking) (have : List Seat) (rest : Here r c (Unit {0}))
      → have ≢ []
      → Still (resume r c env q cid b have rest)
  unfolding resume
  resume-Sold cid b have rest some_seat = tested (same_seats have (seats_of q.seats)) have some_seat
    where
      tested :
          (t : Bool) (have : List Seat)
          → have ≢ []
          → Still (
              if t
              then complete r c env q cid b
              else elim have [ [] ↦ rest | x ∷ xs ↦ mismatch r c env q ])
      tested true have h w p = complete-Sold cid b w p
      tested false [] h w p = absurd (h refl)
      tested false (x ∷ xs) h w p = mismatch-Sold w p

  module _ (s : ConcertShow) (new : Assigned) where
    resume_found-Sold :
        (b : ConcertBooking) → Triple (Same b) (resume_found r c env q s new b) (λ a. Kept) Kept
    unfolding resume_found
    resume_found-Sold b w p =
        bind-Triple Sold _ (λ a. Kept) Kept _
          (λ have.
            resume r c env q s.concert_id b have
              (finish r c env q s new b.booking_id (code_or_empty b.booking_code)))
          (weaken Sold _ _ Sold Kept _ (select-Held g g _) (λ a w x. x) (λ w x. x.0))
          (λ have w x. resume-Sold s.concert_id b have _ (has have x.1.0 x.1.1 x.1.2) w x.0) w p.0
      where
        has :
            (have : List Seat) (t : ConcertTables)
            → frame_of t ≡ g
            → have ≡ seats_of_booking b.booking_id q.show_id t.active
            → have ≢ []
        has have t e i j = has_seats old.booking_id q.show_id (seats_of q.seats) f.active valid (
            sym (
              i
              ∙ ap (λ x. seats_of_booking b.booking_id q.show_id x.active) e
              ∙ ap (λ x. seats_of_booking x q.show_id g.active) p.1)
            ∙ j)

    recover-Sold : Still (recover r c env q s new)
    unfolding recover
    recover-Sold =
        next-Triple Sold (λ a. Sold) (λ a. Kept) Kept rollback _
          (weaken Sold (λ a. Sold) (λ a. Sold) Sold Kept rollback (rollback-Held g g) (λ a w p. p)
            (λ w p. p.0))
          λ a.
            bind-Triple Sold _ (λ a. Kept) Kept _
              (λ o. check_owner r c env q o >>= resume_found r c env q s new)
              (weaken Sold _ _ Sold Kept _ (select-Held g g _) (λ a w x. x) (λ w x. x.0))
              λ o w p.
                bind-Triple Sold Same (λ a. Kept) Kept (check_owner r c env q o)
                  (resume_found r c env q s new)
                  (weaken Sold Same Same Sold Kept _ (found_again p.1.0 o p.1.1 p.1.2) (λ b w x. x)
                    (λ w x. x.0))
                  resume_found-Sold w p.0

    NotInserted-then :
        (b : Bool)
        → Triple
            (NotInserted b)
            (elim b [
              | true ↦ finish r c env q s new new.booking_id ""
              | false ↦ recover r c env q s new
            ])
            (λ a. Kept)
            Kept
    NotInserted-then true w p = absurd (clash p.0)
      where
        clash : true ≡ false → ⊥
        clash i = cc
    NotInserted-then false w p = recover-Sold w p.1

    pub book-Sold : Still (book r c env q s new)
    unfolding book
    book-Sold =
        bind-Triple Sold NotInserted (λ a. Kept) Kept _ _
          (weaken Sold NotInserted NotInserted Sold Kept _ (insert_booking-Sold new.booking_id)
            (λ b w p. p) (λ w p. p.0))
          NotInserted-then
