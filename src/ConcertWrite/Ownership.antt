-- ===== src/ConcertWrite/Ownership.antt =====
-- A commit takes no seat from another owner, whatever fails.
use awstest.Prelude.{
  ℕ, zero, suc, ◌≡◌, ◌≢◌, ap, ◌∙◌, Bool, true, false, Option, none, some, List, [], ◌∷◌, length,
  ◌==◌, ◌||◌, str_eq, if◌then◌else◌,
}
use awstest.Prelude.Int.{pos}
use awstest.Redis.Commands.{doc, num}
use awstest.Redis.Program.{ret}
use awstest.Redis.Sends.{Sends, bind-Sends}
use awstest.Redis.Simulation.{look-run}
use awstest.Cache.{Key, Seat, seat, remain, hold, confirmed, pending, snapshot, text}
use awstest.Cache.Safe.{Cached, CacheValue}
use awstest.Cache.Safe as Safe
use awstest.Cache.Sends.{SparesKey, get-Sends, set-Sends, setnx-Sends, delete-Sends, scard-Sends}
use awstest.SeatHold.Views.{owner}
use awstest.SeatHold.Counter.{adjust_remain, try_decrease_remain_if_enough}
use awstest.SeatHold.Counter.Sparing.{adjust_remain-Spares, try_decrease-Spares}
use awstest.SeatHold.Hold.{
  HoldCode, held, no_seats, confirmed_seat, duplicate_seat, try_hold_seats, release_seats,
}
use awstest.SeatHold.Hold.Ownership as Holds
use awstest.SeatHold.Hold.Ownership.{Spares-Keeps, try_hold-Keeps, release_keeps}
use awstest.WaitingRoom.Tickets.{
  Status, invalid_ref, unknown_or_expired, admitted, processing, status,
}
use awstest.ConcertWrite.Session.{
  Servers, World, pure, raise, ◌>>=◌, ◌>>◌, on_room, on_desk, on_cache,
}
use awstest.ConcertWrite.Seeding.{
  Lookup, Counter, settled, missing, stuck, reading, is_active, judge, read_counter, seed_of,
  write_seed, seed_from, seed, seed_remain_count_if_missing,
}
use awstest.ConcertWrite.Keeping.{
  Keeps, attempt-Keeps, or_undo-Keeps, if-Keeps, bind-Keeps, next-Keeps, either-Post, on_room-Keeps,
  on_desk-Keeps,
}
use awstest.ConcertWrite.{
  Submission, Env, Answer, queued, refused, refusal, parse_seats, verify, renewed, renew, permitted,
  after_hold, hold as hold_seats, hold_if_enough, place, undo, enqueue, unless_placed, if_permitted,
  commit_seats, commit_concert_booking,
}

-- The seeding writes the counter only.
module _ (j : Key) (sid : ℕ) (other : remain sid ≢ j) where
  is_active-Spares : Sends (SparesKey j) (is_active sid)
  unfolding is_active
  is_active-Spares = bind-Sends (SparesKey j) _ _ (scard-Sends (SparesKey j) (hold sid) tt) λ holds.
      bind-Sends (SparesKey j) _ _ (scard-Sends (SparesKey j) (confirmed sid) tt) λ sold.
        bind-Sends (SparesKey j) _ _ (get-Sends (SparesKey j) (pending sid) tt) (λ waiting. tt)

  judge-Spares : (o : Option ℕ) → Sends (SparesKey j) (judge sid o)
  unfolding judge
  judge-Spares none = tt
  judge-Spares (some zero) =
      bind-Sends (SparesKey j) (is_active sid) (λ active. ret (if active then settled 0 else stuck))
        is_active-Spares (λ active. tt)
  judge-Spares (some (suc n)) = tt

  pub read_counter-Spares : Sends (SparesKey j) (read_counter sid)
  unfolding read_counter
  read_counter-Spares =
      bind-Sends (SparesKey j) (Safe.get (remain sid)) (λ raw. judge sid (reading raw))
        (get-Sends (SparesKey j) (remain sid) tt) (λ raw. judge-Spares (reading raw))

  pub write_seed-Spares : (repairs : Bool) (n : ℕ) → Sends (SparesKey j) (write_seed sid repairs n)
  unfolding write_seed
  write_seed-Spares repairs zero = tt
  write_seed-Spares true (suc n) =
      bind-Sends (SparesKey j) _ _ (set-Sends (SparesKey j) (remain sid) (num (pos (suc n))) other)
        (λ done. tt)
  write_seed-Spares false (suc n) =
      bind-Sends (SparesKey j) _ _
        (setnx-Sends (SparesKey j) (remain sid) (num (pos (suc n))) other) (λ done. tt)

module _ (s : Servers) (env : Env) (q : Submission) (other_show : ℕ) (y : Seat) (v : CacheValue)
    (other : v ≢ doc (text env.booking_ref)) where
  abbrev OwnedIn : s.cache.Db → Type 0
  OwnedIn d = owner (s.cache.look d) other_show y ≡ some v

  abbrev Owned : World s → Type 0
  Owned w = OwnedIn w.cache

  abbrev Leaves : {A : Type 0} → Cached A → Type 0
  Leaves = Holds.Keeps env.cache env.scan q.show_id env.booking_ref other_show y v other

  cache-Owned : {A : Type 0} (m : Cached A) → Leaves m → Keeps Owned (on_cache s m)
  unfolding on_cache
  cache-Owned m h w p =
      ap (λ u. owner u other_show y) (look-run s.cache m w.cache_faults w.cache)
      ∙ h w.cache_faults (s.cache.look w.cache) p

  spares-Owned :
      {A : Type 0} (m : Cached A)
      → Sends (SparesKey (seat other_show y)) m
      → Keeps Owned (on_cache s m)
  spares-Owned m h =
      cache-Owned m
        (Spares-Keeps env.cache env.scan q.show_id env.booking_ref other_show y v other m h)

  seed_from-Owned : (repairs : Bool) (o : Option ℕ) → Keeps Owned (seed_from s q.show_id repairs o)
  unfolding seed_from
  seed_from-Owned repairs none = λ w p. p
  seed_from-Owned repairs (some n) =
      next-Keeps Owned (on_cache s (write_seed q.show_id repairs n)) (pure n)
        (spares-Owned (write_seed q.show_id repairs n)
          (write_seed-Spares (seat other_show y) q.show_id (λ e. cc) repairs n))
        (λ w p. p)

  seed-Owned : (lookup : Lookup) (c : Counter) → Keeps Owned (seed s q.show_id lookup c)
  unfolding seed
  seed-Owned lookup (settled n) = λ w p. p
  seed-Owned lookup missing = seed_from-Owned false (seed_of lookup)
  seed-Owned lookup stuck = seed_from-Owned true (seed_of lookup)

  pub seeding-Owned : Keeps Owned (seed_remain_count_if_missing s q.show_id env.lookup)
  unfolding seed_remain_count_if_missing
  seeding-Owned =
      if-Keeps Owned (q.show_id == 0) (pure 0) _ (λ w p. p)
        (bind-Keeps Owned (on_cache s (read_counter q.show_id)) (seed s q.show_id env.lookup)
          (spares-Owned (read_counter q.show_id)
            (read_counter-Spares (seat other_show y) q.show_id (λ e. cc)))
          (seed-Owned env.lookup))

  renewed-Owned : (st : Status) → Keeps Owned (renewed s env q st)
  unfolding renewed verify
  renewed-Owned (admitted token p) =
      if-Keeps Owned (str_eq token "") raise _ (λ w p. p) (on_room-Keeps s (λ d fs. OwnedIn d) _)
  renewed-Owned invalid_ref = λ w p. p
  renewed-Owned unknown_or_expired = λ w p. p
  renewed-Owned (processing x) = λ w p. p

  permitted-Owned : Keeps Owned (permitted s env q)
  unfolding permitted verify renew
  permitted-Owned =
      bind-Keeps Owned (verify s env q q.permit_token) _ (on_room-Keeps s (λ d fs. OwnedIn d) _)
        λ ok.
          if-Keeps Owned ok (pure true) _ (λ w p. p)
            (if-Keeps Owned (str_eq q.queue_ref "") (pure false) (renew s env q) (λ w p. p)
              (attempt-Keeps Owned
                (on_room s (status env.room q.queue_ref env.moment) >>= renewed s env q) false
                (bind-Keeps Owned (on_room s (status env.room q.queue_ref env.moment))
                  (renewed s env q) (on_room-Keeps s (λ d fs. OwnedIn d) _) renewed-Owned)))

  restores-Owned :
      (n : ℕ) (code : HoldCode)
      → Keeps Owned (
          on_cache s (adjust_remain env.cache env.scan q.show_id (pos n) 0)
          >> pure (some (refused (refusal code))))
  restores-Owned n code =
      next-Keeps Owned (on_cache s (adjust_remain env.cache env.scan q.show_id (pos n) 0)) _
        (spares-Owned _ (
          adjust_remain-Spares (seat other_show y) env.cache env.scan q.show_id (λ e. cc) (λ e. cc)
            (pos n) 0))
        (λ w p. p)

  after_hold-Owned : (n : ℕ) (code : HoldCode) → Keeps Owned (after_hold s env q n code)
  unfolding after_hold
  after_hold-Owned n held = λ w p. p
  after_hold-Owned n no_seats = restores-Owned n no_seats
  after_hold-Owned n confirmed_seat = restores-Owned n confirmed_seat
  after_hold-Owned n duplicate_seat = restores-Owned n duplicate_seat

  hold_if_enough-Owned :
      (seats : List Seat) (o : Bool × ℕ) → Keeps Owned (hold_if_enough s env q seats o)
  unfolding hold_if_enough hold_seats
  hold_if_enough-Owned seats (false, left) = λ w p. p
  hold_if_enough-Owned seats (true, left) =
      bind-Keeps Owned
        (on_cache s
          (try_hold_seats env.cache env.scan q.show_id seats env.booking_ref none false env.now_ms))
        (after_hold s env q (length seats))
        (cache-Owned _ (
          try_hold-Keeps env.cache env.scan q.show_id env.booking_ref other_show y v other
            env.now_ms false seats none))
        (after_hold-Owned (length seats))

  place-Owned : (seats : List Seat) → Keeps Owned (place s env q seats)
  unfolding place
  place-Owned seats =
      let take = try_decrease_remain_if_enough env.cache env.scan q.show_id (length seats) 0 in
      if-Keeps Owned q.skip_hold (pure none) _ (λ w p. p)
        (bind-Keeps Owned (on_cache s take) (hold_if_enough s env q seats)
          (spares-Owned take (
            try_decrease-Spares (seat other_show y) env.cache env.scan q.show_id (λ e. cc) (λ e. cc)
              (length seats) 0))
          (hold_if_enough-Owned seats))

  undo-Owned : (seats : List Seat) → Keeps Owned (undo s env q seats)
  unfolding undo
  undo-Owned seats =
      if-Keeps Owned q.skip_hold (pure tt) _ (λ w p. p)
        (cache-Owned (release_seats env.cache env.scan q.show_id seats env.booking_ref)
          (release_keeps env.cache env.scan q.show_id env.booking_ref other_show y v other seats))

  enqueue-Owned : (seats : List Seat) → Keeps Owned (enqueue s env q seats)
  unfolding enqueue
  enqueue-Owned seats =
      next-Keeps Owned (on_cache s (Safe.delete (snapshot q.show_id))) _
        (spares-Owned (Safe.delete (snapshot q.show_id))
          (delete-Sends (SparesKey (seat other_show y)) (snapshot q.show_id) (λ e. cc)))
        (bind-Keeps Owned _ (λ ref. pure (queued ref))
          (or_undo-Keeps Owned (on_desk s _) (undo s env q seats)
            (on_desk-Keeps s (λ d fs. OwnedIn d) _) (undo-Owned seats))
          (λ ref w p. p))

  unless_placed-Owned :
      (seats : List Seat) (o : Option Answer) → Keeps Owned (unless_placed s env q seats o)
  unfolding unless_placed
  unless_placed-Owned seats none = enqueue-Owned seats
  unless_placed-Owned seats (some answer) = λ w p. p

  if_permitted-Owned : (seats : List Seat) (b : Bool) → Keeps Owned (if_permitted s env q seats b)
  unfolding if_permitted
  if_permitted-Owned seats true =
      bind-Keeps Owned (place s env q seats) (unless_placed s env q seats) (place-Owned seats)
        (unless_placed-Owned seats)
  if_permitted-Owned seats false = λ w p. p

  commit_seats-Owned : (o : Option (List Seat)) → Keeps Owned (commit_seats s env q o)
  unfolding commit_seats
  commit_seats-Owned none = λ w p. p
  commit_seats-Owned (some []) = λ w p. p
  commit_seats-Owned (some (x ∷ xs)) =
      next-Keeps Owned (seed_remain_count_if_missing s q.show_id env.lookup)
        (permitted s env q >>= if_permitted s env q (x ∷ xs)) seeding-Owned
        (bind-Keeps Owned (permitted s env q) (if_permitted s env q (x ∷ xs)) permitted-Owned
          (if_permitted-Owned (x ∷ xs)))

  commit-Owned : Keeps Owned (commit_concert_booking s env q)
  unfolding commit_concert_booking
  commit-Owned =
      if-Keeps Owned (q.user_id == 0 || q.show_id == 0) _ _ (λ w p. p) (some_seats q.seats)
    where
      some_seats :
          (xs : List (Option Seat))
          → Keeps Owned (elim xs [
            | [] ↦ pure Answer.without_seats
            | x ∷ xs ↦ commit_seats s env q (parse_seats [] (x ∷ xs))
          ])
      some_seats [] = λ w p. p
      some_seats (x ∷ xs) = commit_seats-Owned (parse_seats [] (x ∷ xs))

  -- Whatever requests fail, a seat that is owned by anyone but the fresh booking reference has the
  -- same owner after commit_concert_booking, on every branch of it.
  pub commit-keeps_owner :
      (w : World s)
      → owner (s.cache.look w.cache) other_show y ≡ some v
      → owner (s.cache.look (commit_concert_booking s env q w).1.cache) other_show y ≡ some v
  commit-keeps_owner w p = either-Post Owned (commit_concert_booking s env q w) (commit-Owned w p)
