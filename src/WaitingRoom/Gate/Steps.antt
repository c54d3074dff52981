-- ===== src/WaitingRoom/Gate/Steps.antt =====
-- The gate as a clock and a count, without the store: one step, and the code that implements it.
use awstest.Prelude.{
  ℕ, zero, suc, ◌+◌, ◌-◌, ◌*◌, ◌/◌, ◌≤◌, ◌<◌, ◌≡◌, refl, subst, sym, ap, ap₂, ◌∙◌, Bool, true,
  false, Option, none, some, List, [], ◌∷◌, map, All, arith, ◌==◌, if◌then◌else◌,
}
use awstest.Prelude.Int.{ℤ, pos, pos_add}
use awstest.Redis.Commands.{
  Store, Entry, Command, num, get, set, expire, value, apply, answer, after, update,
}
use awstest.Redis.Program.{Client, Faults, Outcome, run}
use awstest.Redis.Simulation.{run_store}
use awstest.Redis.Spares.{Spares, after_all-Spares, value_of}
use awstest.Redis.Pipeline.{replies, after_all}
use awstest.Redis.Raising.{has_error, raise, ok}
use awstest.Redis.Reading.{replies-gets, after_all-gets}
use awstest.Redis.Raising.Runs.{
  Succeeds, set-Succeeds, expire-Succeeds, execute-runs, execute-Succeeds,
}
use awstest.WaitingRoom.{
  Kind, Key, done, clock, Doc, Member, Settings, Key-discrete, Member-discrete, Room, RoomReply,
}
use awstest.WaitingRoom.Gate.{open_gate, pair_of, step, advance, advance_commands}

pub record GateState : Type 0 where
  pub clock_ms : ℕ
  pub admitted : ℕ

-- Whole seconds are counted, and the clock moves by them, so that no fraction is lost.
unfoldable pub tick : ℕ → ℕ → GateState → GateState
tick rate now_ms g =
    let seconds = (now_ms - g.clock_ms) / 1000 in
    record { clock_ms = g.clock_ms + seconds * 1000; admitted = g.admitted + seconds * rate }

abbrev pub RoomStore : Type 0
RoomStore = Store Key Doc Member

abbrev pub on_room :
    {A : Type 0} → Client Key Doc Member A → Faults → RoomStore → Outcome RoomStore A
on_room = run_store Key-discrete Member-discrete

-- The store has the gate: its clock has been started.
abbrev pub Shows : Kind → ℕ → GateState → RoomStore → Type 0
Shows kind entity_id g s =
    (value_of (s (clock kind entity_id)) ≡ some (num (pos g.clock_ms)))
    × (value_of (s (done kind entity_id)) ≡ some (num (pos g.admitted)))

number_reply :
    (e : Option (Entry Doc Member)) (k : Key) (n : ℤ)
    → value_of e ≡ some (num n)
    → answer Key-discrete Member-discrete (get k) e ≡ value (num n)
unfolding answer
number_reply e k n h = ground arith

not_zero : (n : ℕ) → 0 < n → (n == 0) ≡ false
not_zero n h = ground arith

no_seconds : (n rate : ℕ) → 0 < rate → (n * rate == 0) ≡ true → n ≡ 0
no_seconds zero rate h e = refl
no_seconds (suc n) rate h e = ground arith

module _ (settings : Settings) (kind : Kind) (entity_id rate now_ms : ℕ) (g : GateState)
    (s : RoomStore) where
  abbrev after_reading : Room ℤ
  after_reading = step settings kind entity_id rate now_ms (pos g.clock_ms, pos g.admitted)

  -- After the reading, the step goes on with what the store shows.
  open_gate-step :
      Shows kind entity_id g s
      → on_room (open_gate settings kind entity_id rate now_ms) [] s ≡ on_room after_reading [] s
  unfolding open_gate has_error
  open_gate-step h =
      execute-runs Key-discrete Member-discrete (map get keys) _ s (ap has_error read_both ∙ refl)
      ∙ ap₂ (λ rs u. on_room (resumed rs) [] u) read_both
          (after_all-gets Key-discrete Member-discrete keys s)
    where
      keys : List Key
      keys = clock kind entity_id ∷ done kind entity_id ∷ []

      resumed : List RoomReply → Room ℤ
      resumed raw = elim (pair_of raw) [
        | none ↦ raise
        | some read ↦ step settings kind entity_id rate now_ms read
      ]

      read_both :
          replies Key-discrete Member-discrete (map get keys) s
          ≡ value (num (pos g.clock_ms)) ∷ value (num (pos g.admitted)) ∷ []
      read_both =
          replies-gets Key-discrete Member-discrete keys s
          ∙ rw
              (
                number_reply (s (clock kind entity_id)) (clock kind entity_id) (pos g.clock_ms) h.0,
                number_reply (s (done kind entity_id)) (done kind entity_id) (pos g.admitted) h.1,
              )
              refl

  abbrev expires : Bool → List (Command Key Doc Member)
  expires none_set =
      if none_set
      then []
      else expire (clock kind entity_id) settings.counter_ttl
        ∷ expire (done kind entity_id) settings.counter_ttl
        ∷ []

  expires-Succeeds : (b : Bool) → All (Succeeds Key-discrete Member-discrete) (expires b)
  expires-Succeeds true = tt
  expires-Succeeds false = (
    expire-Succeeds Key-discrete Member-discrete _ _,
    (expire-Succeeds Key-discrete Member-discrete _ _, tt),
  )

  expires-Spares : (j : Key) (b : Bool) → All (Spares j) (expires b)
  expires-Spares j true = tt
  expires-Spares j false = (tt, (tt, tt))

  advance_commands-Succeeds :
      (prev seconds : ℕ) (n : ℤ)
      → All
          (Succeeds Key-discrete Member-discrete)
          (advance_commands settings kind entity_id prev seconds n)
  unfolding advance_commands
  advance_commands-Succeeds prev seconds n = (
    set-Succeeds Key-discrete Member-discrete _ _ _ _,
    (
      set-Succeeds Key-discrete Member-discrete _ _ _ _,
      expires-Succeeds (settings.counter_ttl == 0),
    ),
  )

  two_sets :
      (j : Key) (a b : ℤ) (u : RoomStore)
      → let u' =
          (apply Key-discrete Member-discrete
            (set (done kind entity_id) (num b) false none)
            (apply Key-discrete Member-discrete
              (set (clock kind entity_id) (num a) false none)
              u).1).1 in
        (value_of (u' (clock kind entity_id)) ≡ some (num a))
        × (value_of (u' (done kind entity_id)) ≡ some (num b))
  unfolding apply after update
  two_sets j a b u = ground arith

  advanced :
      (prev seconds n : ℕ)
      → Shows kind entity_id
          (record { clock_ms = prev + seconds * 1000; admitted = n })
          (after_all Key-discrete Member-discrete
            (advance_commands settings kind entity_id prev seconds (pos n))
            s)
  unfolding advance_commands after_all
  advanced prev seconds n =
      let w = two_sets (clock kind entity_id) (pos (prev + seconds * 1000)) (pos n) s in
      (
        after_all-Spares Key-discrete Member-discrete (clock kind entity_id) _ _
              (expires-Spares _ (settings.counter_ttl == 0))
            ∙ w.0,
        after_all-Spares Key-discrete Member-discrete (done kind entity_id) _ _
              (expires-Spares _ (settings.counter_ttl == 0))
            ∙ w.1,
      )

  abbrev GoesTo : GateState → Room ℤ → Type 0
  GoesTo g' m =
      let o = on_room m [] s in (o.result ≡ some (pos g'.admitted)) × Shows kind entity_id g' o.db

  advance_exact :
      Shows kind entity_id g s
      → 0 < rate
      → (b : Bool) → ((now_ms - g.clock_ms) / 1000 * rate == 0) ≡ b
      → GoesTo
          (tick rate now_ms g)
          (advance settings kind entity_id rate now_ms g.clock_ms (pos g.admitted))
  unfolding advance tick run
  advance_exact h q true e =
      rw (e, no_seconds _ rate q e)
        ((
          ap (λ n. some (pos n)) (omega arith),
          (
            h.0 ∙ ap (λ n. some (num (pos n))) (omega arith),
            h.1 ∙ ap (λ n. some (num (pos n))) (omega arith),
          ),
        ))
  advance_exact h q false e =
      let seconds = (now_ms - g.clock_ms) / 1000 in
      let n = pos (g.admitted + seconds * rate) in
      rw (e, pos_add g.admitted (seconds * rate))
        (subst
          (λ (o : Outcome RoomStore (Option ℤ)).
            (o.result ≡ some (pos (tick rate now_ms g).admitted))
            × Shows kind entity_id (tick rate now_ms g) o.db)
          (sym (
            execute-Succeeds Key-discrete Member-discrete
              (advance_commands settings kind entity_id g.clock_ms seconds n) (λ _. ok n) s
              (advance_commands-Succeeds g.clock_ms seconds n)))
          (refl, advanced g.clock_ms seconds (g.admitted + seconds * rate)))

  step_exact :
      Shows kind entity_id g s
      → 0 < g.clock_ms
      → 0 < rate
      → GoesTo (tick rate now_ms g) after_reading
  unfolding step
  step_exact h p q = rw (not_zero g.clock_ms p) (advance_exact h q _ refl)

seconds_of :
    (c t u : ℕ) → t ≤ u → (t - c) / 1000 + (u - (c + (t - c) / 1000 * 1000)) / 1000 ≡ (u - c) / 1000
seconds_of c t u h = omega (arith, h)

pub tick_split :
    (rate t u : ℕ) (g : GateState) → t ≤ u → tick rate u (tick rate t g) ≡ tick rate u g
unfolding tick
tick_split rate t u g h =
    ground (arith, seconds_of g.clock_ms t u h, ap (λ x. x * rate) (seconds_of g.clock_ms t u h))

module _ (settings : Settings) (kind : Kind) (entity_id rate now_ms : ℕ) (g : GateState)
    (s : RoomStore) where
  pub gate_run :
      Shows kind entity_id g s
      → 0 < g.clock_ms
      → 0 < rate
      → let o = on_room (open_gate settings kind entity_id rate now_ms) [] s in
        (o.result ≡ some (pos (tick rate now_ms g).admitted))
        × Shows kind entity_id (tick rate now_ms g) o.db
  gate_run h p q =
      subst
        (λ (o : Outcome RoomStore (Option ℤ)).
          (o.result ≡ some (pos (tick rate now_ms g).admitted))
          × Shows kind entity_id (tick rate now_ms g) o.db)
        (sym (open_gate-step settings kind entity_id rate now_ms g s h))
        (step_exact settings kind entity_id rate now_ms g s h p q)
