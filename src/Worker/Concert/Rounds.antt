-- ===== src/Worker/Concert/Rounds.antt =====
-- The rounds of the loop: a concert booking is booked at most once.
use awstest.Prelude.{
  ℕ, zero, suc, ◌≡◌, ◌≢◌, inl, inr, refl, sym, subst, Bool, true, false, Option, none, some, [],
  if◌then◌else◌,
}
use awstest.Booking.{DeskServer}
use awstest.SeatHold.Views.{Server}
use awstest.Worker.Holds.{seats_of}
use awstest.Worker.Recounts.{ConcertShow}
use awstest.Worker.Concert.Tables.{Result, ok, raise, find_ref}
use awstest.Worker.Concert.Job.{World, pure, connect}
use awstest.Worker.Concert.Effects.{Request, Env, refuse}
use awstest.Worker.Concert.{
  Assigned, book, any_outside, with_show, attempt_booking, after_error, round, rounds,
  process_concert_booking,
}
use awstest.Worker.Concert.Triples.{
  Frame, frame_of, Ends, ends, raises, Triple, weaken, bind-Triple, next-Triple, catch-Triple,
  Committed, pure-Quiet,
}
use awstest.Worker.Concert.Frames.{Held, select-Held, connect-Held}
use awstest.Worker.Concert.Quiet.{refuse-Quiet, after_error-Quiet}
use awstest.Worker.Concert.Once.{AtMostOnce, booked_as, book-Fresh}
use awstest.Worker.Concert.Again.{book-Sold}

module _ (r : DeskServer) (c : Server) (env : Env) (q : Request) where
  module _ (R : Frame → Type 0) (g : Frame) (holds : R g) where
    abbrev Kept : {A : Type 0} → A → World r.Db c.Db → Type 0
    Kept a = Committed R

    loosen : (x : Frame) → x ≡ g → R x
    loosen x e = subst R (sym e) holds

    -- One attempt, if each booking of a show keeps the relation.
    module _ (new : Assigned)
        (books : (s : ConcertShow)
          → Triple (Held g g) (book r c env q s new) Kept (Committed R)) where
      with_show-Kept :
          (o : Option ConcertShow)
          → Triple (Held g g) (with_show r c env q new o) Kept (Committed R)
      unfolding with_show
      with_show-Kept none w p = refuse-Quiet R r c env q _ w (loosen _ p.0)
      with_show-Kept (some s) w p = tested (any_outside s (seats_of q.seats)) w p
        where
          tested :
              (b : Bool)
              → Triple
                  (Held g g)
                  (if b then refuse r c env q "INVALID_SEAT" else book r c env q s new)
                  Kept
                  (Committed R)
          tested true w p = refuse-Quiet R r c env q _ w (loosen _ p.0)
          tested false w p = books s w p

      attempt-Kept : Triple (Held g g) (attempt_booking r c env q new) Kept (Committed R)
      unfolding attempt_booking
      attempt-Kept =
          bind-Triple (Held g g) _ Kept (Committed R) _ (with_show r c env q new)
            (weaken (Held g g) _ (λ a. Held g g) (Held g g) (Committed R) _ (select-Held g g _)
              (λ a w p. p.0) (λ w p. loosen _ p.0))
            with_show-Kept

      round-Kept :
          (attempt : ℕ)
          → Triple (Committed (λ x. x ≡ g)) (round r c env q new attempt) Kept (Committed R)
      unfolding round
      round-Kept attempt =
          next-Triple (Committed (λ x. x ≡ g)) (λ a. Held g g) Kept (Committed R) connect _
            (weaken (Committed (λ x. x ≡ g)) (λ a. Held g g) (λ a. Held g g)
              (Committed (λ x. x ≡ g)) (Committed R) connect (connect-Held g) (λ a w p. p)
              (λ w p. loosen _ p))
            λ a.
              catch-Triple (Held g g) Kept (Committed R) (Committed R) _
                (after_error r c env q attempt)
                (next-Triple (Held g g) Kept Kept (Committed R) _ (pure true) attempt-Kept
                  (λ a. pure-Quiet R true))
                (after_error-Quiet R r c env q attempt)

  module _ (f : Frame) (new_ref : find_ref q.booking_ref f.lines ≡ none)
      (valid : seats_of q.seats ≢ []) where
    abbrev Once : World r.Db c.Db → Type 0
    Once = Committed (AtMostOnce q f)

    round-Once :
        (new : Assigned) (attempt : ℕ) → Triple Once (round r c env q new attempt) (λ b. Once) Once
    round-Once new attempt w (inl e) =
        round-Kept (AtMostOnce q f) f (inl refl) new (λ s. book-Fresh r c env q f new_ref s new)
          attempt w e
    round-Once new attempt w (inr (old, e)) =
        let g = booked_as q old f in
        round-Kept (AtMostOnce q f) g (inr (old, refl)) new
          (λ s.
            weaken (Held g g) _ (λ a. Once) _ Once _ (book-Sold r c env q f old valid s new)
              (λ a w p. inr (old, p)) (λ w p. inr (old, p)))
          attempt w e

    rounds-Once :
        (new : ℕ → Assigned) (n attempt : ℕ)
        → Triple Once (rounds r c env q new n attempt) (λ b. Once) Once
    unfolding rounds
    rounds-Once new zero attempt w p = ends p
    rounds-Once new (suc n) attempt w p =
        bind-Triple Once (λ b. Once) (λ b. Once) Once _
          (λ b. elim b [ true ↦ pure true | false ↦ rounds r c env q new n (suc attempt) ])
          (round-Once (new attempt) attempt) (more (rounds-Once new n (suc attempt))) w p
      where
        more :
            Triple Once (rounds r c env q new n (suc attempt)) (λ b. Once) Once
            → (b : Bool)
            → Triple Once
                (elim b [ true ↦ pure true | false ↦ rounds r c env q new n (suc attempt) ])
                (λ b. Once)
                Once
        more h true w p = ends p
        more h false w p = h w p

  -- If no booking has the reference yet and the request has a seat, then whatever statements and
  -- requests fail and however many rounds the loop makes, process_concert_booking leaves the
  -- committed bookings (their codes aside), active seats and payments as they were, or adds one
  -- booking of the request with its seats and one payment.
  pub concert-books_once :
      (new : ℕ → Assigned) (n : ℕ) (w : World r.Db c.Db)
      → find_ref q.booking_ref (frame_of w.committed).lines ≡ none
      → seats_of q.seats ≢ []
      → AtMostOnce q
          (frame_of w.committed)
          (frame_of (process_concert_booking r c env q new n w).1.committed)
  unfolding process_concert_booking
  concert-books_once new n w new_ref valid =
      committed (rounds r c env q new n 1 w)
        (rounds-Once (frame_of w.committed) new_ref valid new n 1 w (inl refl))
    where
      committed :
          (x : Result Bool × World r.Db c.Db)
          → Ends
              (λ b. Committed (AtMostOnce q (frame_of w.committed)))
              (Committed (AtMostOnce q (frame_of w.committed)))
              x
          → AtMostOnce q (frame_of w.committed) (frame_of x.1.committed)
      committed (ok b, v) (ends p) = p
      committed (raise e, v) (raises p) = p
