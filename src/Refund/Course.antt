-- ===== src/Refund/Course.antt =====
-- The course of a refund, statement by statement.
use awstest.Prelude.{
  ℕ, ◌≡◌, refl, sym, subst, Bool, true, false, Option, none, some, List, [], map, ◌==◌,
  if◌then◌else◌,
}
use awstest.Cache.{Seat}
use awstest.SeatHold.Views.{Server}
use awstest.Worker.Concert.Tables.{ConcertBooking, ConcertTables}
use awstest.Worker.Concert.Job.{
  World, pure, ◌>>=◌, ◌>>◌, select, write, connect, commit, rollback, Failures,
}
use awstest.Worker.Concert.Triples.{ends, Triple, weaken, bind-Triple, next-Triple, catch-Triple}
use awstest.Refund.Statements.{
  find_own, concert_of, seats_with, remain_of, cancelled_row, unpaid_row, cancel_booking,
  cancel_payment, cancel_seats, recount, set_status,
}
use awstest.Refund.Spec.{AnyFails}
use awstest.Refund.Tables.{cleared, recounted, with_status, synced, after_refund}
use awstest.Refund.{
  Answer, not_found, already_cancelled, broken, refunded, Outcome, ended, completed, Here, on_cache,
  correct_caches, synchronise, refund_found, refund_if_own, finish, refund_concert_booking,
}
use awstest.Refund.Steps.{At, Same, Failed, connect-At, rollback-At, select-At, write-At, commit-At}

module _ (c : Server) (user_id id : ℕ) (start : Failures) (t : ConcertTables) where
  abbrev pub There : Type 0
  There = World (Unit {0}) c.Db

  -- The booking was the user's and not cancelled, and it has been refunded.
  abbrev pub Done : There → Type 0
  Done w =
      (b : ConcertBooking) × (find_own user_id id t.bookings ≡ some b)
      × (b.cancelled ≡ false)
      × (w.committed ≡ after_refund id b t)

  -- The user has no such booking, or it was cancelled.
  abbrev pub Refuses : Answer → Type 0
  Refuses not_found = find_own user_id id t.bookings ≡ none
  Refuses already_cancelled =
      (b : ConcertBooking) × (find_own user_id id t.bookings ≡ some b) × (b.cancelled ≡ true)
  Refuses broken = AnyFails start
  Refuses refunded = ⊥

  abbrev pub Finished : Answer → There → Type 0
  Finished refunded w = Done w
  Finished not_found w = (w.committed ≡ t) × Refuses not_found
  Finished already_cancelled w = (w.committed ≡ t) × Refuses already_cancelled
  Finished broken w = (w.committed ≡ t) × Refuses broken

  abbrev pub After : Outcome → There → Type 0
  After (completed d) w = Done w
  After (ended a) w = (w.committed ≡ t) × Refuses a

  -- Statements that keep what the connection sees.
  unless-At :
      {A : Type 0} (x : Bool) (a : A) (f : ConcertTables → A)
      → Triple {D = Unit {0}} {C = c.Db}
          (At start t t)
          (if x then pure a else select f)
          (λ a. At start t t)
          (Failed start t)
  unless-At true a f = λ w p. ends p
  unless-At false a f =
      weaken (At start t t) _ (λ a. At start t t) (Failed start t) (Failed start t) (select f)
        (select-At start t t f) (λ a w p. p.0) (λ w p. p)

  synchronise-At :
      (show_id : ℕ) (u : ConcertTables)
      → Triple
          (At start t u)
          (synchronise c show_id)
          (λ n. At start t (synced show_id u))
          (Failed start t)
  unfolding synchronise recount set_status
  synchronise-At show_id u = by_show (show_id == 0)
    where
      v : ConcertTables
      v = recounted show_id u

      sync : Here c (Option ℕ)
      sync =
          write (recount show_id)
          >> (select (remain_of show_id) >>= λ n.
              write (set_status show_id (n == 0)) >> pure (some n))

      by_show :
          (x : Bool)
          → Triple
              (At start t u)
              (if x then pure none else sync)
              (λ n. At start t (if x then u else with_status show_id (remain_of show_id v == 0) v))
              (Failed start t)
      by_show true = λ w p. ends p
      by_show false =
          next-Triple (At start t u) (λ a. At start t v)
            (λ n. At start t (with_status show_id (remain_of show_id v == 0) v)) (Failed start t)
            (write (recount show_id)) _ (write-At start t u (recount show_id) v refl)
            λ a.
              bind-Triple (At start t v) (λ n w. At start t v w × (n ≡ remain_of show_id v))
                (λ n. At start t (with_status show_id (remain_of show_id v == 0) v))
                (Failed start t) (select (remain_of show_id)) _
                (select-At start t v (remain_of show_id))
                λ n w p.
                  next-Triple (At start t v) (λ a. At start t (with_status show_id (n == 0) v))
                    (λ n. At start t (with_status show_id (remain_of show_id v == 0) v))
                    (Failed start t) (write (set_status show_id (n == 0))) (pure (some n))
                    (write-At start t v (set_status show_id (n == 0))
                      (with_status show_id (n == 0) v) refl)
                    (λ a w i.
                      ends (subst (λ k. At start t (with_status show_id (k == 0) v) w) p.1 i))
                    w p.0

  module _ (b : ConcertBooking) (own : find_own user_id id t.bookings ≡ some b)
      (live : b.cancelled ≡ false) where
    abbrev t1 : ConcertTables
    t1 = record t { bookings = map (cancelled_row id) t.bookings }

    abbrev t2 : ConcertTables
    t2 = record t1 { payments = map (unpaid_row id) t.payments }

    abbrev leave : ℕ → List Seat → Here c Outcome
    leave concert_id seats =
        write (cancel_booking id)
        >> (write (cancel_payment id)
            >> (write (cancel_seats id)
                >> (synchronise c b.show_id >>= λ n.
                    commit
                    >> pure (
                        completed (record {
                          concert_id = concert_id;
                          show_id = b.show_id;
                          seats = seats;
                          remain_after = n;
                        })))))

    leave-After :
        (concert_id : ℕ) (seats : List Seat)
        → Triple (At start t t) (leave concert_id seats) After (Failed start t)
    unfolding cancel_booking cancel_payment cancel_seats
    leave-After concert_id seats =
        next-Triple (At start t t) (λ a. At start t t1) After (Failed start t)
          (write (cancel_booking id)) _ (write-At start t t (cancel_booking id) t1 refl)
          λ a.
            next-Triple (At start t t1) (λ a. At start t t2) After (Failed start t)
              (write (cancel_payment id)) _ (write-At start t t1 (cancel_payment id) t2 refl)
              λ a.
                next-Triple (At start t t2) (λ a. At start t (cleared id t)) After (Failed start t)
                  (write (cancel_seats id)) _
                  (write-At start t t2 (cancel_seats id) (cleared id t) refl)
                  λ a.
                    bind-Triple (At start t (cleared id t)) (λ n. At start t (after_refund id b t))
                      After (Failed start t) (synchronise c b.show_id) _
                      (synchronise-At b.show_id (cleared id t))
                      λ n.
                        next-Triple (At start t (after_refund id b t))
                          (λ a w. w.committed ≡ after_refund id b t) After (Failed start t) commit _
                          (commit-At start t (after_refund id b t))
                          (λ a w p. ends (b, own, live, p))

    refund_found-After : Triple (At start t t) (refund_found c id b) After (Failed start t)
    unfolding refund_found
    refund_found-After =
        bind-Triple (At start t t) (λ a. At start t t) After (Failed start t)
          (if b.show_id == 0 then pure 0 else select (concert_of b.show_id))
          (λ concert_id.
            (if b.show_id == 0 then pure [] else select (λ t. seats_with id t.active))
            >>= leave concert_id)
          (unless-At (b.show_id == 0) 0 (concert_of b.show_id))
          λ concert_id.
            bind-Triple (At start t t) (λ a. At start t t) After (Failed start t)
              (if b.show_id == 0 then pure [] else select (λ t. seats_with id t.active))
              (leave concert_id) (unless-At (b.show_id == 0) [] (λ t. seats_with id t.active))
              (leave-After concert_id)

  ended-After :
      (a : Answer)
      → Refuses a
      → Triple (At start t t) (rollback >> pure (ended a)) After (Failed start t)
  ended-After a h =
      next-Triple (At start t t) (λ x. At start t t) After (Failed start t) rollback
        (pure (ended a)) (λ w p. rollback-At start t w (p.0, p.2)) (λ x w p. ends (p.0, h))

  broken-After : Triple (Failed start t) (rollback >> pure (ended broken)) After (Failed start t)
  unfolding ◌>>◌ rollback
  broken-After w p = ends p

  refund_if_own-After :
      (o : Option ConcertBooking)
      → find_own user_id id t.bookings ≡ o
      → Triple (At start t t) (refund_if_own c id o) After (Failed start t)
  unfolding refund_if_own
  refund_if_own-After none e = ended-After not_found e
  refund_if_own-After (some b) e = by_state b.cancelled refl
    where
      by_state :
          (x : Bool)
          → b.cancelled ≡ x
          → Triple
              (At start t t)
              (if x then rollback >> pure (ended already_cancelled) else refund_found c id b)
              After
              (Failed start t)
      by_state true z = ended-After already_cancelled (b, e, z)
      by_state false z = refund_found-After b e z

  finish-Finished : (o : Outcome) → Triple (After o) (finish c o) Finished (Failed start t)
  unfolding finish on_cache
  finish-Finished (completed d) = λ w p. next_refunded w p
    where
      next_refunded :
          Triple Done (on_cache c (correct_caches d) >> pure refunded) Finished (Failed start t)
      next_refunded =
          next-Triple Done (λ a. Done) Finished (Failed start t) (on_cache c (correct_caches d))
            (pure refunded) (λ w p. ends p) (λ a w p. ends p)
  finish-Finished (ended refunded) = λ w p. absurd p.1
  finish-Finished (ended not_found) = λ w p. ends p
  finish-Finished (ended already_cancelled) = λ w p. ends p
  finish-Finished (ended broken) = λ w p. ends p

  pub refund-Finished :
      Triple (Same start t) (refund_concert_booking c user_id id) Finished (Failed start t)
  unfolding refund_concert_booking
  refund-Finished =
      next-Triple (Same start t) (λ a. At start t t) Finished (Failed start t) connect _
        (connect-At start t)
        λ a.
          bind-Triple (At start t t) After Finished (Failed start t) _ (finish c)
            (catch-Triple (At start t t) After (Failed start t) (Failed start t)
              (select (λ t. find_own user_id id t.bookings) >>= refund_if_own c id)
              (λ e. rollback >> pure (ended broken))
              (bind-Triple (At start t t)
                (λ o w. At start t t w × (o ≡ find_own user_id id t.bookings)) After
                (Failed start t) (select (λ t. find_own user_id id t.bookings)) (refund_if_own c id)
                (select-At start t t (λ t. find_own user_id id t.bookings))
                (λ o w p. refund_if_own-After o (sym p.1) w p.0))
              (λ e. broken-After))
            finish-Finished
