-- ===== src/ConcertWrite/Admission.antt =====
-- Without a permit and without a queue reference nothing is held and nothing is sent.
use awstest.Prelude.{
  ℕ, ◌≡◌, refl, sym, ap, ◌∙◌, Bool, true, false, Option, none, some, List, [], ◌∷◌, ◌==◌, ◌||◌,
  str_eq, str_eq_iff, if◌then◌else◌,
}
use awstest.Redis.Program.{run, Outcome}
use awstest.Redis.Simulation.{look-run}
use awstest.Redis.Spares.{value_of, run-Spares}
use awstest.Redis.Sends.{Sends}
use awstest.Cache.{Seat, seat, Key-discrete, Member-discrete}
use awstest.Cache.Safe.{Cached}
use awstest.Cache.Sends.{SparesKey}
use awstest.SeatHold.Views.{owner}
use awstest.WaitingRoom as WaitingRoom
use awstest.WaitingRoom.{permit}
use awstest.WaitingRoom.Tickets.{verify_permit}
use awstest.WaitingRoom.Tickets.Checks.{PermitFor, verify_permit_sound}
use awstest.ConcertWrite.Session.{Servers, World, pure, ◌>>=◌, on_room, on_cache}
use awstest.ConcertWrite.Seeding.{
  Lookup, Counter, settled, missing, stuck, read_counter, seed_of, write_seed, seed_from, seed,
  seed_remain_count_if_missing,
}
use awstest.ConcertWrite.Keeping.{
  Post, Ends, Keeps, bind-Ends, next-Ends, bind-Keeps, next-Keeps, if-Keeps,
}
use awstest.ConcertWrite.Ownership.{read_counter-Spares, write_seed-Spares}
use awstest.ConcertWrite.{
  Submission, Env, Answer, bad_request, without_seats, bad_seat_key, waiting_room_required,
  sold_out, refused, queued, parse_seats, verify, renew, permitted, if_permitted, commit_seats,
  commit_concert_booking,
}

-- An answer of a visit that has come to nothing.
abbrev Rejected : Answer → Type 0
Rejected bad_request = Unit
Rejected without_seats = Unit
Rejected bad_seat_key = Unit
Rejected waiting_room_required = Unit
Rejected (sold_out left) = ⊥
Rejected (refused code) = ⊥
Rejected (queued ref) = ⊥

-- An exception, or such an answer.
abbrev pub ComesToNothing : Option Answer → Type 0
ComesToNothing none = Unit
ComesToNothing (some a) = Rejected a

module _ (s : Servers) (env : Env) (q : Submission) (start : World s) where
  -- The seats have the owners of the start, and the booking database is as it was.
  abbrev Untouched : World s → Type 0
  Untouched w =
      ((show_id : ℕ) (y : Seat)
        → owner (s.cache.look w.cache) show_id y ≡ owner (s.cache.look start.cache) show_id y)
      × (w.desk ≡ start.desk)

  -- The waiting room, too.
  abbrev Unasked : World s → Type 0
  Unasked w = Untouched w × (w.room ≡ start.room)

  cache-Unasked :
      {A : Type 0} (m : Cached A)
      → ((show_id : ℕ) (y : Seat) → Sends (SparesKey (seat show_id y)) m)
      → Keeps Unasked (on_cache s m)
  unfolding on_cache
  cache-Unasked m h w p = (
    (
      λ show_id y.
          ap (λ u. owner u show_id y) (look-run s.cache m w.cache_faults w.cache)
          ∙ run-Spares Key-discrete Member-discrete (seat show_id y) m w.cache_faults
              (s.cache.look w.cache) (h show_id y)
          ∙ p.0.0 show_id y,
      p.0.1,
    ),
    p.1,
  )

  seed_from-Unasked :
      (repairs : Bool) (o : Option ℕ) → Keeps Unasked (seed_from s q.show_id repairs o)
  unfolding seed_from
  seed_from-Unasked repairs none = λ w p. p
  seed_from-Unasked repairs (some n) =
      next-Keeps Unasked (on_cache s (write_seed q.show_id repairs n)) (pure n)
        (cache-Unasked (write_seed q.show_id repairs n)
          (λ show_id y. write_seed-Spares (seat show_id y) q.show_id (λ e. cc) repairs n))
        (λ w p. p)

  seed-Unasked : (lookup : Lookup) (c : Counter) → Keeps Unasked (seed s q.show_id lookup c)
  unfolding seed
  seed-Unasked lookup (settled n) = λ w p. p
  seed-Unasked lookup missing = seed_from-Unasked false (seed_of lookup)
  seed-Unasked lookup stuck = seed_from-Unasked true (seed_of lookup)

  seeding-Unasked : Keeps Unasked (seed_remain_count_if_missing s q.show_id env.lookup)
  unfolding seed_remain_count_if_missing
  seeding-Unasked =
      if-Keeps Unasked (q.show_id == 0) (pure 0) _ (λ w p. p)
        (bind-Keeps Unasked (on_cache s (read_counter q.show_id)) (seed s q.show_id env.lookup)
          (cache-Unasked (read_counter q.show_id)
            (λ show_id y. read_counter-Spares (seat show_id y) q.show_id (λ e. cc)))
          (seed-Unasked env.lookup))

  module _
      (unknown : PermitFor WaitingRoom.concert q.show_id q.user_id
          (value_of (s.room.look start.room (permit q.permit_token)))
        → ⊥)
      (no_ref : q.queue_ref ≡ "") where
    abbrev Refuses : Bool → World s → Type 0
    Refuses b w = Untouched w × (b ≡ false)

    abbrev asks : World s → Outcome s.room.Db (Option Bool)
    asks w =
        run s.room (verify_permit q.permit_token WaitingRoom.concert q.show_id q.user_id)
          w.room_faults w.room

    verify-Refuses : Ends Unasked (verify s env q q.permit_token) Refuses Untouched
    unfolding verify on_room
    verify-Refuses w p = answered (asks w).result refl
      where
        after : World s
        after = record w { room = (asks w).db; room_faults = (asks w).faults }

        not_true : (asks w).result ≡ some true → ⊥
        not_true e = unknown (
            verify_permit_sound WaitingRoom.concert q.show_id q.user_id s.room q.permit_token
              w.room_faults start.room
              (ap
                  (λ d.
                    (run s.room
                      (verify_permit q.permit_token WaitingRoom.concert q.show_id q.user_id)
                      w.room_faults d).result)
                  (sym p.1)
                ∙ e))

        answered :
            (o : Option Bool) → (asks w).result ≡ o → Post {s = s} Refuses Untouched (o, after)
        answered none e = p.0
        answered (some true) e = absurd (not_true e)
        answered (some false) e = (p.0, refl)

    permitted-Refuses : Ends Unasked (permitted s env q) Refuses Untouched
    unfolding permitted
    permitted-Refuses =
        bind-Ends Unasked Refuses Refuses Untouched (verify s env q q.permit_token) _ verify-Refuses
          λ b w p. refuses b (str_eq q.queue_ref "") ((str_eq_iff q.queue_ref "").1 no_ref) w p
      where
        refuses :
            (b e : Bool)
            → e ≡ true
            → Ends
                (Refuses b)
                (if b then pure true else if e then pure false else renew s env q)
                Refuses
                Untouched
        refuses true e h w p = absurd (clash p.1)
          where
            clash : true ≡ false → ⊥
            clash i = cc
        refuses false true h w p = (p.0, refl)
        refuses false false h w p = absurd (clash h)
          where
            clash : false ≡ true → ⊥
            clash i = cc

    abbrev Rejects : Answer → World s → Type 0
    Rejects a w = Untouched w × Rejected a

    if_permitted-Rejects :
        (seats : List Seat) (b : Bool)
        → Ends (Refuses b) (if_permitted s env q seats b) Rejects Untouched
    unfolding if_permitted
    if_permitted-Rejects seats true = λ w p. absurd (clash p.1)
      where
        clash : true ≡ false → ⊥
        clash i = cc
    if_permitted-Rejects seats false = λ w p. (p.0, tt)

    commit_seats-Rejects :
        (o : Option (List Seat)) → Ends Unasked (commit_seats s env q o) Rejects Untouched
    unfolding commit_seats
    commit_seats-Rejects none = λ w p. (p.0, tt)
    commit_seats-Rejects (some []) = λ w p. (p.0, tt)
    commit_seats-Rejects (some (x ∷ xs)) =
        next-Ends Unasked (λ n. Unasked) Rejects Untouched
          (seed_remain_count_if_missing s q.show_id env.lookup)
          (permitted s env q >>= if_permitted s env q (x ∷ xs))
          (λ w p. loosen _ (seeding-Unasked w p))
          λ n.
            bind-Ends Unasked Refuses Rejects Untouched (permitted s env q)
              (if_permitted s env q (x ∷ xs)) permitted-Refuses (if_permitted-Rejects (x ∷ xs))
      where
        loosen :
            (x : Option ℕ × World s)
            → Post {s = s} (λ n. Unasked) Unasked x
            → Post {s = s} (λ n. Unasked) Untouched x
        loosen (some n, w) p = p
        loosen (none, w) p = p.0

    commit-Rejects : Ends Unasked (commit_concert_booking s env q) Rejects Untouched
    unfolding commit_concert_booking
    commit-Rejects = chosen (q.user_id == 0 || q.show_id == 0) q.seats
      where
        chosen :
            (b : Bool) (xs : List (Option Seat))
            → Ends Unasked
                (if b then pure bad_request else elim xs [
                  | [] ↦ pure without_seats
                  | x ∷ xs ↦ commit_seats s env q (parse_seats [] (x ∷ xs))
                ])
                Rejects
                Untouched
        chosen true xs = λ w p. (p.0, tt)
        chosen false [] = λ w p. (p.0, tt)
        chosen false (x ∷ xs) = commit_seats-Rejects (parse_seats [] (x ∷ xs))

    -- If the request has no queue reference, and the waiting room has no permit for the user and
    -- the show under its token, then whatever requests fail, commit_concert_booking raises or
    -- answers a rejection (BAD_REQUEST, NO_SEATS, BAD_SEAT_KEY or WAITING_ROOM_REQUIRED), no seat
    -- gets another owner, and the booking database is as it was.
    pub commit-needs_permit :
        let o = commit_concert_booking s env q start in
        ComesToNothing o.0
        × ((show_id : ℕ) (y : Seat)
            → owner (s.cache.look o.1.cache) show_id y ≡ owner (s.cache.look start.cache) show_id y)
        × (o.1.desk ≡ start.desk)
    commit-needs_permit =
        conclude (commit_concert_booking s env q start)
          (commit-Rejects start (((λ show_id y. refl), refl), refl))
      where
        conclude :
            (x : Option Answer × World s)
            → Post {s = s} Rejects Untouched x
            → ComesToNothing x.0
              × ((show_id : ℕ) (y : Seat)
                  → owner (s.cache.look x.1.cache) show_id y
                    ≡ owner (s.cache.look start.cache) show_id y)
              × (x.1.desk ≡ start.desk)
        conclude (some a, w) p = (p.1, p.0.0, p.0.1)
        conclude (none, w) p = (tt, p.0, p.1)
