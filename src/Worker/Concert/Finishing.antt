-- ===== src/Worker/Concert/Finishing.antt =====
-- The end of a transaction: it commits the seats, the payment and the booking, or nothing.
use awstest.Prelude.{
  ℕ, String, ◌≡◌, ◌⊎◌, inl, inr, Bool, true, false, List, [], ◌∷◌, str_eq, if◌then◌else◌,
}
use awstest.Booking.{DeskServer}
use awstest.SeatHold.Views.{Server}
use awstest.Worker.Holds.{seats_of}
use awstest.Worker.Recounts.{ConcertShow}
use awstest.Worker.Concert.Tables.{ConcertTables, Raised, Result, update_concert_code}
use awstest.Worker.Concert.Job.{World, pure, throw, ◌>>=◌, ◌>>◌, write, commit}
use awstest.Worker.Concert.Effects.{Request, Env, Here, get_remain}
use awstest.Worker.Concert.{Assigned, is_integrity, choose_code, ensure_code, finish}
use awstest.Worker.Concert.Triples.{
  Frame, frame_of, ends, raises, Triple, weaken, bind-Triple, next-Triple, catch-Triple, Committed,
  Quiet, on_cache-Both,
}
use awstest.Worker.Concert.Frames.{
  Held, Lands, write-Held, commit-Held, paid, seated, update_code-Lands, insert_payment-Lands,
  insert_seats-Lands,
}
use awstest.Worker.Concert.Quiet.{report-Quiet}

-- One of two frames.
abbrev pub Either : Frame → Frame → Frame → Type 0
Either g h x = (x ≡ g) ⊎ (x ≡ h)

-- What a transaction that began at `h` leaves, with the booking `b`.
abbrev pub final : Request → Assigned → ℕ → Frame → Frame
final q new b h = paid (seated b q.show_id (seats_of q.seats) h) new.payment_id b

module _ (r : DeskServer) (c : Server) (env : Env) (q : Request) (g : Frame) where
  abbrev Ended : Frame → World r.Db c.Db → Type 0
  Ended h = Committed (Either g h)

  -- A program that keeps what is held, before one that ends.
  abbrev Keeps : {A : Type 0} → Frame → Here r c A → Type 0
  Keeps h m = Triple (Held g h) m (λ a. Held g h) (Held g h)

  or_Ended : (h k : Frame) (w : World r.Db c.Db) → Held g h w → Ended k w
  or_Ended h k w p = inl p.0

  keeps_then :
      {A B : Type 0} (h h' k : Frame) (m : Here r c A) (f : A → Here r c B)
      → Triple (Held g h) m (λ a. Held g h') (Held g h)
      → ((a : A) → Triple (Held g h') (f a) (λ b. Ended k) (Ended k))
      → Triple (Held g h) (m >>= f) (λ b. Ended k) (Ended k)
  keeps_then h h' k m f p n =
      bind-Triple (Held g h) (λ a. Held g h') (λ b. Ended k) (Ended k) m f
        (weaken (Held g h) (λ a. Held g h') (λ a. Held g h') (Held g h) (Ended k) m p (λ a w x. x)
          (or_Ended h k))
        n

  writes_then :
      {B : Type 0} (h h' k : Frame) (f : ConcertTables → Result ConcertTables) (n : Here r c B)
      → ((t : ConcertTables) → frame_of t ≡ h → Lands (λ x. x ≡ h') (f t))
      → Triple (Held g h') n (λ b. Ended k) (Ended k)
      → Triple (Held g h) (write f >> n) (λ b. Ended k) (Ended k)
  writes_then h h' k f n l p =
      next-Triple (Held g h) (λ a. Held g h') (λ b. Ended k) (Ended k) (write f) n
        (weaken (Held g h) (λ a. Held g h') (λ a. Held g h') (Held g h) (Ended k) (write f)
          (write-Held g h (λ x. x ≡ h') f l) (λ a w x. x) (or_Ended h k))
        (λ a. p)

  choose_code-Keeps : (b : ℕ) (codes : List String) (h : Frame) → Keeps h (choose_code b codes)
  unfolding choose_code
  choose_code-Keeps b [] h w i = ends i
  choose_code-Keeps b (code ∷ codes) h w i =
      catch-Triple (Held g h) (λ a. Held g h) (Held g h) (Held g h) _ _
        (next-Triple (Held g h) (λ a. Held g h) (λ a. Held g h) (Held g h) _ (pure code)
          (write-Held g h (λ x. x ≡ h) (update_concert_code b code) (update_code-Lands h b code))
          (λ a w p. ends p))
        (λ e. again e (is_integrity e) (choose_code-Keeps b codes h)) w i
    where
      again :
          (e : Raised) (t : Bool)
          → Keeps h (choose_code b codes)
          → Keeps h (if t then choose_code b codes else throw e)
      again e true k w p = k w p
      again e false k w p = raises p

  ensure_code-Keeps :
      (b : ℕ) (codes : List String) (code : String) (h : Frame)
      → Keeps h (ensure_code r c env q b codes code)
  unfolding ensure_code
  ensure_code-Keeps b codes code h = chosen (str_eq code "")
    where
      chosen : (t : Bool) → Keeps h (if t then choose_code b codes else pure code)
      chosen true w p = choose_code-Keeps b codes h w p
      chosen false w p = ends p

  get_remain-Keeps : (h : Frame) → Keeps h (get_remain r c env q)
  unfolding get_remain
  get_remain-Keeps h = on_cache-Both r c (λ t d. (frame_of d ≡ g) × (frame_of t ≡ h)) _

  commits_then :
      {B : Type 0} (h : Frame) (n : Here r c B)
      → Quiet (Either g h) n
      → Triple (Held g h) (commit >> n) (λ b. Ended h) (Ended h)
  commits_then h n p =
      next-Triple (Held g h) (λ a. Ended h) (λ b. Ended h) (Ended h) commit n
        (weaken (Held g h) (λ a w. frame_of w.committed ≡ h) (λ a. Ended h) (Held g h) (Ended h)
          commit (commit-Held g h) (λ a w x. inr x) (or_Ended h h))
        (λ a. p)

  pub finish-Ends :
      (s : ConcertShow) (new : Assigned) (b : ℕ) (code : String) (h : Frame)
      → Triple
          (Held g h)
          (finish r c env q s new b code)
          (λ a. Ended (final q new b h))
          (Ended (final q new b h))
  unfolding finish
  finish-Ends s new b code h =
      let h' = seated b q.show_id (seats_of q.seats) h in
      let k = final q new b h in
      keeps_then h h k _ _ (ensure_code-Keeps b new.codes code h) λ code'.
        writes_then h h' k _ _ (insert_seats-Lands h b q.show_id (seats_of q.seats)) (
          writes_then h' k k _ _ (insert_payment-Lands h' new.payment_id b) (
            keeps_then k k k _ _ (get_remain-Keeps k)
              λ n. commits_then k _ (report-Quiet (Either g k) r c env q s _)))
