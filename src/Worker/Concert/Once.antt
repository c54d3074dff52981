-- ===== src/Worker/Concert/Once.antt =====
-- A concert booking is booked at most once, whatever fails and however many rounds the loop makes.
use awstest.Prelude.{
  ℕ, String, ◌≡◌, ◌⊎◌, inl, inr, sym, ap, ◌∙◌, Bool, true, false, Option, none, some, List, [], ◌∷◌,
  map, if◌then◌else◌,
}
use awstest.Booking.{DeskServer}
use awstest.SeatHold.Views.{Server}
use awstest.Worker.Recounts.{ConcertShow}
use awstest.Worker.Concert.Tables.{
  ConcertBooking, ConcertTables, Raised, duplicate_ref, duplicate_key, foreign_key, deadlock,
  operational, exception, has_ref, find_ref,
}
use awstest.Worker.Concert.Job.{World, pure, ◌>>=◌, rollback}
use awstest.Worker.Concert.Effects.{Request, Env}
use awstest.Worker.Concert.{
  Assigned, unless_duplicate, booking_row, insert_booking, finish, check_owner, resume_found,
  recover, book,
}
use awstest.Worker.Concert.Triples.{
  Frame, line_of, frame_of, ends, raises, Triple, weaken, bind-Triple, next-Triple, catch-Triple,
  Committed,
}
use awstest.Worker.Concert.Frames.{
  Held, select-Held, write-Held, rollback-Held, listed, insert_booking-Lands,
}
use awstest.Worker.Concert.Finishing.{Either, final, finish-Ends}

-- The frame after the request was booked.
abbrev pub booked_as : Request → Assigned → Frame → Frame
booked_as q new f = final q new new.booking_id (listed f (booking_row q new.booking_id))

-- Nothing was booked, or the request was, once.
abbrev pub AtMostOnce : Request → Frame → Frame → Type 0
AtMostOnce q f x = (x ≡ f) ⊎ ((new : Assigned) × (x ≡ booked_as q new f))

pub find_ref-line_of :
    (ref : String) (bs : List ConcertBooking) (b : ConcertBooking)
    → find_ref ref bs ≡ some b
    → find_ref ref (map line_of bs) ≡ some (line_of b)
unfolding find_ref
find_ref-line_of ref [] b e = cc
find_ref-line_of ref (x ∷ bs) b e = tested (has_ref ref x) (find_ref-line_of ref bs b) e
  where
    unwrap : {x y : ConcertBooking} → some x ≡ some y → x ≡ y
    unwrap p = cc

    tested :
        (t : Bool)
        → (find_ref ref bs ≡ some b → find_ref ref (map line_of bs) ≡ some (line_of b))
        → (if t then some x else find_ref ref bs) ≡ some b
        → (if t then some (line_of x) else find_ref ref (map line_of bs)) ≡ some (line_of b)
    tested true h p = ap (λ y. some (line_of y)) (unwrap p)
    tested false h p = h p

module _ (r : DeskServer) (c : Server) (env : Env) (q : Request) (f : Frame)
    (new_ref : find_ref q.booking_ref f.lines ≡ none) where
  abbrev Once : World r.Db c.Db → Type 0
  Once = Committed (AtMostOnce q f)

  abbrev Fresh : World r.Db c.Db → Type 0
  Fresh = Held f f

  Fresh-Once : (w : World r.Db c.Db) → Fresh w → Once w
  Fresh-Once w p = inl p.0

  abbrev Inserted : ℕ → Bool → World r.Db c.Db → Type 0
  Inserted id b = Held f (if b then listed f (booking_row q id) else f)

  not_duplicate : (id : ℕ) (e : Raised) → Triple Fresh (unless_duplicate e) (Inserted id) Fresh
  unfolding unless_duplicate
  not_duplicate id duplicate_ref w p = ends p
  not_duplicate id deadlock w p = raises p
  not_duplicate id operational w p = raises p
  not_duplicate id duplicate_key w p = raises p
  not_duplicate id foreign_key w p = raises p
  not_duplicate id exception w p = raises p

  insert_booking-Fresh : (id : ℕ) → Triple Fresh (insert_booking r c env q id) (Inserted id) Fresh
  unfolding insert_booking
  insert_booking-Fresh id =
      let h = listed f (booking_row q id) in
      catch-Triple Fresh (Inserted id) Fresh Fresh _ unless_duplicate
        (next-Triple Fresh (λ a. Held f h) (Inserted id) Fresh _ (pure true)
          (write-Held f f (λ x. x ≡ h) _ (insert_booking-Lands f (booking_row q id)))
          (λ a w p. ends p))
        (not_duplicate id)

  -- No row has the reference.
  nothing_found :
      (t : ConcertTables) (o : Option ConcertBooking)
      → frame_of t ≡ f
      → o ≡ find_ref q.booking_ref t.bookings
      → Triple Fresh (check_owner r c env q o) (λ b w. ⊥) Fresh
  unfolding check_owner
  nothing_found t none e p w i = raises i
  nothing_found t (some b) e p w i = absurd (
      clash (
        sym (find_ref-line_of q.booking_ref t.bookings b (sym p))
        ∙ ap (λ x. find_ref q.booking_ref x.lines) e
        ∙ new_ref))
    where
      clash : {x : ConcertBooking} → some x ≡ none → ⊥
      clash y = cc

  module _ (s : ConcertShow) (new : Assigned) where
    recover-Fresh : Triple Fresh (recover r c env q s new) (λ a. Fresh) Fresh
    unfolding recover
    recover-Fresh =
        next-Triple Fresh (λ a. Fresh) (λ a. Fresh) Fresh rollback _ (rollback-Held f f)
          λ a.
            bind-Triple Fresh _ (λ a. Fresh) Fresh _
              (λ o. check_owner r c env q o >>= resume_found r c env q s new) (select-Held f f _)
              λ o w p.
                bind-Triple Fresh (λ b w. ⊥) (λ a. Fresh) Fresh (check_owner r c env q o)
                  (resume_found r c env q s new) (nothing_found p.1.0 o p.1.1 p.1.2)
                  (λ b w x. absurd x) w p.0

    Inserted-then :
        (b : Bool)
        → Triple
            (Inserted new.booking_id b)
            (elim b [
              | true ↦ finish r c env q s new new.booking_id ""
              | false ↦ recover r c env q s new
            ])
            (λ a. Once)
            Once
    Inserted-then true w p =
        weaken _ _ (λ a. Once) _ Once _
          (finish-Ends r c env q f s new new.booking_id ""
            (listed f (booking_row q new.booking_id)))
          (λ a. done) done w p
      where
        done : (w : World r.Db c.Db) → Committed (Either f (booked_as q new f)) w → Once w
        done w (inl e) = inl e
        done w (inr e) = inr (new, e)
    Inserted-then false w p =
        weaken Fresh (λ a. Fresh) (λ a. Once) Fresh Once _ recover-Fresh (λ a. Fresh-Once)
          Fresh-Once w p

    pub book-Fresh : Triple Fresh (book r c env q s new) (λ a. Once) Once
    unfolding book
    book-Fresh =
        bind-Triple Fresh (Inserted new.booking_id) (λ a. Once) Once _ _
          (weaken Fresh (Inserted new.booking_id) (Inserted new.booking_id) Fresh Once _
            (insert_booking-Fresh new.booking_id) (λ b w p. p) Fresh-Once)
          Inserted-then
