-- ===== src/Worker/Recounts/Agreeing.antt =====
-- After a sync the table agrees with the counter, and a second sync changes nothing.
use awstest.Prelude.{
  ℕ, ◌<◌, ◌≤◌, ◌⊎◌, inl, inr, leb, subst, Bool-cases, ◌≡◌, refl, sym, ap, ap₂, ◌∙◌, Bool, true,
  false, Option, none, some, [], arith, ◌==◌, if◌then◌else◌,
}
use awstest.Prelude.Int.{pos}
use awstest.Redis.Commands.{num, value, get, apply}
use awstest.Redis.Program.{run, ret, Outcome}
use awstest.Redis.Simulation.{result-run, look-run}
use awstest.Redis.Spares.{value_of, apply-get}
use awstest.Redis.Pipeline.{run-bind}
use awstest.Redis.Raising.{or_value, is_error_reply, ok, go_on, command, ◌>>=◌}
use awstest.Redis.Raising.Runs.{command-runs}
use awstest.Redis.Reading.{get-reply}
use awstest.Cache.{remain, Key-discrete, Member-discrete}
use awstest.SeatHold.Views.{CacheStore, Server, on_store}
use awstest.Worker.{Work}
use awstest.Worker.Recounts.{
  counter_of, ConcertShow, Shows, bounded, read_counter, updated, compared, selected, synced,
  sync_one_concert_show_remain,
}

same_number : (a b : ℕ) → (a == b) ≡ true → a ≡ b
same_number a b h = ground arith

equal_self : (a : ℕ) → (a == a) ≡ true
equal_self a = ground arith

not_zero : (a : ℕ) → 0 < a → (a == 0) ≡ false
not_zero a h = ground arith

-- What a counter `n` stands for at a show of `total` seats: at most the total, unless that is 0.
pub data Capped (total n : ℕ) : ℕ → Type 0 where
  within : (total ≡ 0) ⊎ (n ≤ total) → Capped total n n
  above : 0 < total → total < n → Capped total n total

bounded-Capped : (total n : ℕ) → Capped total n (bounded total n)
bounded-Capped total n = elim (Bool-cases (leb n total)) [
  | inl e ↦ subst (Capped total n) (ground (arith, e)) (Capped.within (inr (ground (arith, e))))
  | inr e ↦ elim (Bool-cases (total == 0)) [
    | inl z ↦
        subst (Capped total n) (ground (arith, e, z)) (Capped.within (inl (ground (arith, z))))
    | inr z ↦
        subst (Capped total n) (ground (arith, e, z))
          (Capped.above (ground (arith, z)) (ground (arith, e)))
  ]
]

module _ (show_id n : ℕ) (s : ConcertShow) (shows : Shows) where
  -- The table `t` after a sync that says whether it has updated: the row has what the counter stands
  -- for, an update closes exactly the shows where that is 0, and the other rows are as they were.
  abbrev pub Agrees : Bool → Shows → Type 0
  Agrees updates t =
      (m : ℕ) × (c : Bool) × Capped s.total_count n m
      × (t show_id ≡ some (record s { remain_count = m; closed = c }))
      × (((updates ≡ true) × (c ≡ (m == 0)))
          ⊎ ((updates ≡ false) × (m ≡ s.remain_count) × (c ≡ s.closed)))
      × ((j : ℕ) → (j ≡ show_id) ⊎ (t j ≡ shows j))

  abbrev count : ℕ
  count = bounded s.total_count n

  others :
      (o : Option ConcertShow) (j : ℕ)
      → (j ≡ show_id) ⊎ ((if j == show_id then o else shows j) ≡ shows j)
  others o j = elim (Bool-cases (j == show_id)) [
    | inl e ↦ inl (same_number j show_id e)
    | inr e ↦ inr (rw e refl)
  ]

  compared_if :
      (b : Bool)
      → (s.remain_count == count) ≡ b
      → shows show_id ≡ some s
      → let o = if b then (false, shows) else updated [] show_id count s shows in Agrees o.0 o.1
  unfolding updated
  compared_if true e h = (
    count,
    s.closed,
    bounded-Capped s.total_count n,
    h ∙ ap (λ m. some (record s { remain_count = m })) (same_number _ _ e),
    inr (refl, sym (same_number _ _ e), refl),
    λ j. inr refl,
  )
  compared_if false e h = (
    count,
    count == 0,
    bounded-Capped s.total_count n,
    rw (equal_self show_id) refl,
    inl (refl, refl),
    others (some (record s { remain_count = count; closed = count == 0 })),
  )

  selected-Agrees : shows show_id ≡ some s → let o = selected [] show_id n shows in Agrees o.0 o.1
  unfolding selected compared
  selected-Agrees h = rw h (compared_if _ refl h)

  Capped-bounded : (total n m : ℕ) → Capped total n m → bounded total n ≡ m
  Capped-bounded total n m (Capped.within (inl e)) = ground (arith, e)
  Capped-bounded total n m (Capped.within (inr e)) = ground (arith, e)
  Capped-bounded total n m (Capped.above z e) = ground (arith, z, e)

  selected_again : (b : Bool) (t : Shows) → Agrees b t → selected [] show_id n t ≡ (false, t)
  unfolding selected compared
  selected_again b t (m, c, k, h, u, v) =
      let e = Capped-bounded s.total_count n m k in rw h (rw e (rw (equal_self m) refl))

counter_run :
    (show_id n : ℕ) (u : CacheStore)
    → value_of (u (remain show_id)) ≡ some (num (pos n))
    → on_store (read_counter show_id) [] u ≡ record { result = some (some n); faults = []; db = u }
unfolding read_counter run
counter_run show_id n u h =
    run-bind Key-discrete Member-discrete (λ o. ret (or_value none o)) read [] u
    ∙ ap
        (λ (o : Outcome CacheStore (Option (Option ℕ))).
          on_store (ret (or_value none o.result)) o.faults o.db)
        (command-runs Key-discrete Member-discrete (get (remain show_id))
            (λ raw. ok (counter_of raw)) u (ap is_error_reply reply)
          ∙ ap₂ (λ r t. on_store (ok (counter_of r)) [] t) reply
              (apply-get Key-discrete Member-discrete (remain show_id) u))
  where
    read : Work (Option ℕ)
    read = command (get (remain show_id)) >>= λ raw. ok (counter_of raw)

    reply : (apply Key-discrete Member-discrete (get (remain show_id)) u).0 ≡ value (num (pos n))
    reply = get-reply Key-discrete Member-discrete (remain show_id) u (num (pos n)) tt h

-- The program, when no request fails.
sync_run :
    (show_id n : ℕ) (t : Shows) (u : CacheStore)
    → value_of (u (remain show_id)) ≡ some (num (pos n))
    → 0 < show_id
    → on_store (sync_one_concert_show_remain [] show_id t) [] u
      ≡ record { result = some (selected [] show_id n t); faults = []; db = u }
unfolding sync_one_concert_show_remain run
sync_run show_id n t u h p = rw (not_zero show_id p) (
    run-bind Key-discrete Member-discrete (go_on (λ counter. synced [] show_id counter t))
      (read_counter show_id) [] u
    ∙ ap
        (λ (o : Outcome CacheStore (Option (Option ℕ))).
          on_store (go_on (λ counter. synced [] show_id counter t) o.result) o.faults o.db)
        (counter_run show_id n u h))

-- If the cache has a counter and no request or statement fails, a sync gives the row of the show
-- the counter, at most the total (if that is not 0), and leaves the other rows. It says whether it
-- has updated; if so, the show is closed exactly if nothing remains, and if not, the row was like
-- this before. A second sync updates nothing.
pub sync-Agrees :
    (r : Server) (d : r.Db) (show_id n : ℕ) (s : ConcertShow) (shows : Shows)
    → value_of (r.look d (remain show_id)) ≡ some (num (pos n))
    → 0 < show_id
    → shows show_id ≡ some s
    → let first = run r (sync_one_concert_show_remain [] show_id shows) [] d in
      (b : Bool) × (t : Shows) × (first.result ≡ some (b, t))
      × Agrees show_id n s shows b t
      × ((run r (sync_one_concert_show_remain [] show_id t) [] first.db).result ≡ some (false, t))
sync-Agrees r d show_id n s shows h p row = (
  b,
  t,
  result-run r sync [] d ∙ ap (λ o. o.result) (sync_run show_id n shows (r.look d) h p),
  agrees,
  again,
)
  where
    sync : Work (Bool × Shows)
    sync = sync_one_concert_show_remain [] show_id shows

    b : Bool
    b = (selected [] show_id n shows).0

    t : Shows
    t = (selected [] show_id n shows).1

    agrees : Agrees show_id n s shows b t
    agrees = selected-Agrees show_id n s shows row

    same : r.look (run r sync [] d).db ≡ r.look d
    same =
        look-run r sync [] d
        ∙ ap (λ (o : Outcome CacheStore (Option (Bool × Shows))). o.db)
            (sync_run show_id n shows (r.look d) h p)

    again :
        (run r (sync_one_concert_show_remain [] show_id t) [] (run r sync [] d).db).result
        ≡ some (false, t)
    again =
        result-run r (sync_one_concert_show_remain [] show_id t) [] (run r sync [] d).db
        ∙ ap (λ u. (on_store (sync_one_concert_show_remain [] show_id t) [] u).result) same
        ∙ ap (λ (o : Outcome CacheStore (Option (Bool × Shows))). o.result)
            (sync_run show_id n t (r.look d) h p)
        ∙ ap some (selected_again show_id n s shows b t agrees)
