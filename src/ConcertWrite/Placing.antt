-- ===== src/ConcertWrite/Placing.antt =====
-- The hold of the seats: placed, they are owned by the booking reference.
use awstest.Prelude.{
  ℕ, ◌≡◌, refl, sym, subst, Bool, true, false, Option, none, some, List, [], All, length,
  if◌then◌else◌,
}
use awstest.Prelude.Int.{pos}
use awstest.Redis.Commands.{doc}
use awstest.Redis.Program.{run}
use awstest.Cache.{Seat, text}
use awstest.Cache.Safe.{Cached}
use awstest.SeatHold.Views.{owner}
use awstest.SeatHold.Counter.{adjust_remain, try_decrease_remain_if_enough}
use awstest.SeatHold.Hold.{HoldCode, held, no_seats, confirmed_seat, duplicate_seat, try_hold_seats}
use awstest.SeatHold.Hold.Outcomes.{try_hold-owns}
use awstest.ConcertWrite.Session.{Servers, World, Visit, pure, ◌>>=◌, ◌>>◌, on_cache}
use awstest.ConcertWrite.Keeping.{Post, Ends, bind-Ends, next-Ends}
use awstest.ConcertWrite.{
  Submission, Env, Answer, bad_request, without_seats, bad_seat_key, waiting_room_required,
  sold_out, refused, refusal, queued, after_hold, hold, hold_if_enough, place,
}
use awstest.ConcertWrite.Steady as Steady
use awstest.ConcertWrite.Steady.{cache-Calm, seeding-Calm, permitted-Calm}

module _ (s : Servers) (env : Env) (q : Submission) where
  abbrev pub Calm : World s → Type 0
  Calm = Steady.Calm s env q

  module _ (seats : List Seat) where
    abbrev pub OwnedIn : s.cache.Db → List Seat → Type 0
    OwnedIn d = All (λ x. owner (s.cache.look d) q.show_id x ≡ some (doc (text env.booking_ref)))

    abbrev pub AllOwned : World s → Type 0
    AllOwned w = OwnedIn w.cache seats

    -- If it is queued, the seats are owned by the booking reference.
    abbrev pub Queues : Answer → World s → Type 0
    Queues (queued ref) w = AllOwned w
    Queues bad_request w = Unit
    Queues without_seats w = Unit
    Queues bad_seat_key w = Unit
    Queues waiting_room_required w = Unit
    Queues (sold_out n) w = Unit
    Queues (refused code) w = Unit

    abbrev pub Anything : World s → Type 0
    Anything w = Unit

    pub forget_calm :
        {A : Type 0} (x : Option A × World s)
        → Post {s = s} (λ a. Calm) Calm x
        → Post {s = s} (λ a. Calm) Anything x
    forget_calm (some a, v) h = h
    forget_calm (none, v) h = tt

    abbrev HeldIf : HoldCode → World s → Type 0
    HeldIf held w = AllOwned w
    HeldIf no_seats w = Unit
    HeldIf confirmed_seat w = Unit
    HeldIf duplicate_seat w = Unit

    -- The visit goes on with the seats held, or ends and is not queued.
    abbrev pub Placed : Option Answer → World s → Type 0
    Placed none w = AllOwned w
    Placed (some a) w = Queues a w

    abbrev tries : Cached HoldCode
    tries = try_hold_seats env.cache env.scan q.show_id seats env.booking_ref none false env.now_ms

    try_hold-HeldIf : Ends Calm (on_cache s tries) HeldIf Anything
    unfolding on_cache
    try_hold-HeldIf w p =
        subst
          (λ fs. HeldIf (run s.cache tries fs w.cache).result (record w {
            cache = (run s.cache tries fs w.cache).db;
            cache_faults = (run s.cache tries fs w.cache).faults;
          }))
          (sym p) (by_code (run s.cache tries [] w.cache).result refl)
      where
        after : World s
        after = record w {
          cache = (run s.cache tries [] w.cache).db;
          cache_faults = (run s.cache tries [] w.cache).faults;
        }

        by_code :
            (code : HoldCode) → (run s.cache tries [] w.cache).result ≡ code → HeldIf code after
        by_code held e =
            try_hold-owns env.cache env.scan q.show_id env.booking_ref false env.now_ms s.cache
              w.cache none seats e
        by_code no_seats e = tt
        by_code confirmed_seat e = tt
        by_code duplicate_seat e = tt

    refuses :
        (code : HoldCode)
        → Ends Anything
            (on_cache s (adjust_remain env.cache env.scan q.show_id (pos (length seats)) 0)
              >> pure (some (refused (refusal code))))
            Placed
            Anything
    refuses code =
        next-Ends Anything (λ n. Anything) Placed Anything
          (on_cache s (adjust_remain env.cache env.scan q.show_id (pos (length seats)) 0))
          (pure (some (refused (refusal code)))) (λ w p. adjusts w) (λ n w p. tt)
      where
        anyhow : {A : Type 0} (x : Option A × World s) → Post {s = s} (λ n. Anything) Anything x
        anyhow (some a, v) = tt
        anyhow (none, v) = tt

        adjusts :
            (w : World s)
            → Post {s = s}
                (λ n. Anything)
                Anything
                (on_cache s (adjust_remain env.cache env.scan q.show_id (pos (length seats)) 0) w)
        adjusts w = anyhow _

    after_hold-Placed :
        (code : HoldCode)
        → Ends (HeldIf code) (after_hold s env q (length seats) code) Placed Anything
    unfolding after_hold
    after_hold-Placed held = λ w p. p
    after_hold-Placed no_seats = refuses no_seats
    after_hold-Placed confirmed_seat = refuses confirmed_seat
    after_hold-Placed duplicate_seat = refuses duplicate_seat

    if_enough-Placed : (o : Bool × ℕ) → Ends Calm (hold_if_enough s env q seats o) Placed Anything
    unfolding hold_if_enough hold
    if_enough-Placed (false, left) = λ w p. tt
    if_enough-Placed (true, left) =
        bind-Ends Calm HeldIf Placed Anything (on_cache s tries) (after_hold s env q (length seats))
          try_hold-HeldIf after_hold-Placed

    pub place-Placed : q.skip_hold ≡ false → Ends Calm (place s env q seats) Placed Anything
    unfolding place
    place-Placed holds =
        subst (λ b. Ends Calm (if b then pure none else takes) Placed Anything) (sym holds)
          (bind-Ends Calm (λ o. Calm) Placed Anything
            (on_cache s
              (try_decrease_remain_if_enough env.cache env.scan q.show_id (length seats) 0))
            (hold_if_enough s env q seats) (λ w p. forget_calm _ (cache-Calm s env q _ w p))
            if_enough-Placed)
      where
        takes : Visit s (Option Answer)
        takes =
            on_cache s (try_decrease_remain_if_enough env.cache env.scan q.show_id (length seats) 0)
            >>= hold_if_enough s env q seats
