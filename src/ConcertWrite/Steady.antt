-- ===== src/ConcertWrite/Steady.antt =====
-- If no request to the read cache fails, none fails later in a commit.
use awstest.Prelude.{ℕ, ◌≡◌, ap, ◌∙◌, Bool, true, false, Option, none, some, [], ◌==◌, str_eq}
use awstest.WaitingRoom.{Room}
use awstest.Redis.Program.{run}
use awstest.Redis.Simulation.{faults-run_none}
use awstest.Cache.Safe.{Cached}
use awstest.WaitingRoom.Tickets.{
  Status, invalid_ref, unknown_or_expired, admitted, processing, status,
}
use awstest.ConcertWrite.Session.{Servers, World, pure, raise, ◌>>=◌, on_room, on_cache}
use awstest.ConcertWrite.Seeding.{
  Lookup, Counter, settled, missing, stuck, read_counter, seed_of, write_seed, seed_from, seed,
  seed_remain_count_if_missing,
}
use awstest.ConcertWrite.Keeping.{
  Keeps, bind-Keeps, next-Keeps, if-Keeps, attempt-Keeps, on_room-Keeps,
}
use awstest.ConcertWrite.{Submission, Env, verify, renewed, renew, permitted}

module _ (s : Servers) (env : Env) (q : Submission) where
  -- No request to the read cache fails from here on.
  abbrev pub Calm : World s → Type 0
  Calm w = w.cache_faults ≡ []

  pub cache-Calm : {A : Type 0} (m : Cached A) → Keeps Calm (on_cache s m)
  unfolding on_cache
  cache-Calm m w p =
      ap (λ fs. (run s.cache m fs w.cache).faults) p ∙ faults-run_none s.cache m w.cache

  room-Calm : {A : Type 0} (m : Room A) → Keeps {A = A} Calm (on_room s m)
  room-Calm m = on_room-Keeps s (λ d fs. fs ≡ []) m

  seed_from-Calm : (repairs : Bool) (o : Option ℕ) → Keeps Calm (seed_from s q.show_id repairs o)
  unfolding seed_from
  seed_from-Calm repairs none = λ w p. p
  seed_from-Calm repairs (some n) =
      next-Keeps Calm (on_cache s (write_seed q.show_id repairs n)) (pure n)
        (cache-Calm (write_seed q.show_id repairs n)) (λ w p. p)

  seed-Calm : (lookup : Lookup) (c : Counter) → Keeps Calm (seed s q.show_id lookup c)
  unfolding seed
  seed-Calm lookup (settled n) = λ w p. p
  seed-Calm lookup missing = seed_from-Calm false (seed_of lookup)
  seed-Calm lookup stuck = seed_from-Calm true (seed_of lookup)

  pub seeding-Calm : Keeps Calm (seed_remain_count_if_missing s q.show_id env.lookup)
  unfolding seed_remain_count_if_missing
  seeding-Calm =
      if-Keeps Calm (q.show_id == 0) (pure 0) _ (λ w p. p)
        (bind-Keeps Calm (on_cache s (read_counter q.show_id)) (seed s q.show_id env.lookup)
          (cache-Calm (read_counter q.show_id)) (seed-Calm env.lookup))

  renewed-Calm : (st : Status) → Keeps Calm (renewed s env q st)
  unfolding renewed verify
  renewed-Calm (admitted token p) = if-Keeps Calm (str_eq token "") raise _ (λ w p. p) (room-Calm _)
  renewed-Calm invalid_ref = λ w p. p
  renewed-Calm unknown_or_expired = λ w p. p
  renewed-Calm (processing x) = λ w p. p

  pub permitted-Calm : Keeps Calm (permitted s env q)
  unfolding permitted verify renew
  permitted-Calm = bind-Keeps Calm (verify s env q q.permit_token) _ (room-Calm _) λ ok.
      if-Keeps Calm ok (pure true) _ (λ w p. p)
        (if-Keeps Calm (str_eq q.queue_ref "") (pure false) (renew s env q) (λ w p. p)
          (attempt-Keeps Calm
            (on_room s (status env.room q.queue_ref env.moment) >>= renewed s env q) false
            (bind-Keeps Calm (on_room s (status env.room q.queue_ref env.moment)) (renewed s env q)
              (room-Calm _) renewed-Calm)))
