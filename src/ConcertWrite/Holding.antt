-- ===== src/ConcertWrite/Holding.antt =====
-- A commit that is queued holds its seats.
use awstest.Prelude.{
  String, ◌≡◌, sym, ap, subst, ◌∙◌, Bool, true, false, Option, none, some, List, [], ◌∷◌, All, ◌==◌,
  ◌||◌, if◌then◌else◌,
}
use awstest.Prelude.Int.{ℤ}
use awstest.Booking.{Desk}
use awstest.Redis.Commands.{doc}
use awstest.Redis.Program.{run}
use awstest.Redis.Simulation.{look-run}
use awstest.Redis.Spares.{run-Spares}
use awstest.Cache.{Seat, seat, snapshot, text, Key-discrete, Member-discrete}
use awstest.Cache.Safe.{Cached}
use awstest.Cache.Safe as Safe
use awstest.Cache.Sends.{SparesKey, delete-Sends}
use awstest.SeatHold.Views.{owner}
use awstest.ConcertWrite.Session.{Servers, World, pure, ◌>>=◌, on_desk, on_cache}
use awstest.ConcertWrite.Seeding.{seed_remain_count_if_missing}
use awstest.ConcertWrite.Keeping.{Post, Ends, bind-Ends, next-Ends, or_undo-Ends, on_desk-Keeps}
use awstest.ConcertWrite.{
  Submission, Env, Answer, bad_request, without_seats, queued, parse_seats, permitted, place, undo,
  enqueue, unless_placed, if_permitted, commit_seats, commit_concert_booking,
}
use awstest.ConcertWrite.Steady.{seeding-Calm, permitted-Calm}
use awstest.ConcertWrite.Placing as Placing
use awstest.ConcertWrite.Placing.{forget_calm, place-Placed}

module _ (s : Servers) (env : Env) (q : Submission) where
  abbrev Calm : World s → Type 0
  Calm = Placing.Calm s env q

  module _ (seats : List Seat) (holds : q.skip_hold ≡ false) where
    abbrev OwnedIn : s.cache.Db → List Seat → Type 0
    OwnedIn = Placing.OwnedIn s env q seats

    abbrev AllOwned : World s → Type 0
    AllOwned = Placing.AllOwned s env q seats

    abbrev Queues : Answer → World s → Type 0
    Queues = Placing.Queues s env q seats

    abbrev Placed : Option Answer → World s → Type 0
    Placed = Placing.Placed s env q seats

    abbrev Anything : World s → Type 0
    Anything = Placing.Anything s env q seats

    delete-Owned :
        Ends AllOwned (on_cache s (Safe.delete (snapshot q.show_id))) (λ n. AllOwned) Anything
    unfolding on_cache
    delete-Owned w p = all seats p
      where
        deletes : Cached ℤ
        deletes = Safe.delete (snapshot q.show_id)

        one :
            (x : Seat)
            → owner (s.cache.look w.cache) q.show_id x ≡ some (doc (text env.booking_ref))
            → owner (s.cache.look (run s.cache deletes w.cache_faults w.cache).db) q.show_id x
              ≡ some (doc (text env.booking_ref))
        one x e =
            ap (λ u. owner u q.show_id x) (look-run s.cache deletes w.cache_faults w.cache)
            ∙ run-Spares Key-discrete Member-discrete (seat q.show_id x) deletes w.cache_faults
                (s.cache.look w.cache)
                (delete-Sends (SparesKey (seat q.show_id x)) (snapshot q.show_id) (λ i. cc))
            ∙ e

        all :
            (ss : List Seat)
            → OwnedIn w.cache ss
            → OwnedIn (run s.cache deletes w.cache_faults w.cache).db ss
        all [] h = tt
        all (x ∷ ss) h = (one x h.0, all ss h.1)

    desk-Owned : {A : Type 0} (m : Desk A) → Ends AllOwned (on_desk s m) (λ a. AllOwned) Anything
    desk-Owned m w p = forget _ (on_desk-Keeps s (λ d fs. OwnedIn d seats) m w p)
      where
        forget :
            {A : Type 0} (x : Option A × World s)
            → Post {s = s} (λ a. AllOwned) AllOwned x
            → Post {s = s} (λ a. AllOwned) Anything x
        forget (some a, v) h = h
        forget (none, v) h = tt

    enqueue-Queues : Ends AllOwned (enqueue s env q seats) Queues Anything
    unfolding enqueue
    enqueue-Queues =
        next-Ends AllOwned (λ n. AllOwned) Queues Anything
          (on_cache s (Safe.delete (snapshot q.show_id))) _ delete-Owned
          λ n.
            bind-Ends AllOwned (λ ref. AllOwned) Queues Anything _ (λ ref. pure (queued ref))
              (or_undo-Ends AllOwned (λ ref. AllOwned) (on_desk s _) (undo s env q seats)
                (desk-Owned _))
              (λ ref w p. p)

    unless_placed-Queues :
        (o : Option Answer) → Ends (Placed o) (unless_placed s env q seats o) Queues Anything
    unfolding unless_placed
    unless_placed-Queues none = enqueue-Queues
    unless_placed-Queues (some a) = λ w p. p

    if_permitted-Queues : (b : Bool) → Ends Calm (if_permitted s env q seats b) Queues Anything
    unfolding if_permitted
    if_permitted-Queues true =
        bind-Ends Calm Placed Queues Anything (place s env q seats) (unless_placed s env q seats)
          (place-Placed s env q seats holds) unless_placed-Queues
    if_permitted-Queues false = λ w p. tt

    commit_seats-Queues :
        (o : Option (List Seat))
        → o ≡ some seats
        → Ends Calm (commit_seats s env q o) Queues Anything
    unfolding commit_seats
    commit_seats-Queues none e = λ w p. tt
    commit_seats-Queues (some []) e = λ w p. tt
    commit_seats-Queues (some (x ∷ xs)) e =
        next-Ends Calm (λ n. Calm) Queues Anything
          (seed_remain_count_if_missing s q.show_id env.lookup)
          (permitted s env q >>= if_permitted s env q (x ∷ xs))
          (λ w p. forget_calm s env q seats _ (seeding-Calm s env q w p))
          λ n.
            bind-Ends Calm (λ b. Calm) Queues Anything (permitted s env q)
              (if_permitted s env q (x ∷ xs))
              (λ w p. forget_calm s env q seats _ (permitted-Calm s env q w p))
              λ b.
                subst (λ ss. Ends Calm (if_permitted s env q ss b) Queues Anything) (sym (same e))
                  (if_permitted-Queues b)
      where
        same : {x y : List Seat} → some x ≡ some y → x ≡ y
        same p = cc

    commit-Queues :
        parse_seats [] q.seats ≡ some seats
        → Ends Calm (commit_concert_booking s env q) Queues Anything
    unfolding commit_concert_booking
    commit-Queues e = chosen (q.user_id == 0 || q.show_id == 0) q.seats e
      where
        chosen :
            (b : Bool) (xs : List (Option Seat))
            → parse_seats [] xs ≡ some seats
            → Ends Calm
                (if b then pure bad_request else elim xs [
                  | [] ↦ pure without_seats
                  | x ∷ xs ↦ commit_seats s env q (parse_seats [] (x ∷ xs))
                ])
                Queues
                Anything
        chosen true xs e = λ w p. tt
        chosen false [] e = λ w p. tt
        chosen false (x ∷ xs) e = commit_seats-Queues (parse_seats [] (x ∷ xs)) e

    -- If the items of the request parse, the hold is not skipped, no request to the read cache
    -- fails and commit_concert_booking answers QUEUED, then each seat of the request is owned by
    -- the fresh booking reference.
    pub commit-holds_seats :
        (w : World s) (ref : String)
        → parse_seats [] q.seats ≡ some seats
        → w.cache_faults ≡ []
        → (commit_concert_booking s env q w).0 ≡ some (queued ref)
        → All
            (λ x.
              owner (s.cache.look (commit_concert_booking s env q w).1.cache) q.show_id x
              ≡ some (doc (text env.booking_ref)))
            seats
    commit-holds_seats w ref e p a =
        owned (commit_concert_booking s env q w) (commit-Queues e w p) a
      where
        unwrap : (a : Answer) → some a ≡ some (queued ref) → a ≡ queued ref
        unwrap a i = cc

        owned :
            (x : Option Answer × World s)
            → Post {s = s} Queues Anything x
            → x.0 ≡ some (queued ref)
            → OwnedIn x.1.cache seats
        owned (some a, v) h i = subst (λ y. Queues y v) (unwrap a i) h
        owned (none, v) h i = cc
