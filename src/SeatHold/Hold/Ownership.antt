-- ===== src/SeatHold/Hold/Ownership.antt =====
-- No hold and no release takes a seat from another owner, whatever requests fail.
use awstest.Prelude.{
  ℕ, String, ◌≡◌, ◌≢◌, ◌⊎◌, inl, inr, ap, ◌∙◌, Bool, true, false, Option, none, some, List, [], ◌∷◌,
  All, All-append, map, length, ◌==◌, if◌then◌else◌,
}
use awstest.Redis.Commands.{doc, sadd, expire}
use awstest.Redis.Program.{Faults, Outcome, run, ret, ◌>>=◌}
use awstest.Redis.Simulation.{look-run}
use awstest.Redis.Pipeline.{db-run-bind}
use awstest.Redis.Sends.{Sends, bind-Sends, run-keeps}
use awstest.Redis.Spares.{KeepsPresent, apply-KeepsPresent, run-Spares}
use awstest.Cache.{Key, Seat, seat, hold, text, seat_member, Key-discrete, Member-discrete}
use awstest.Cache.Safe.{Cached, CacheCommand, CacheReply, CacheValue, execute}
use awstest.Cache.Sends.{SparesKey, execute-Sends}
use awstest.SeatHold.Config.{Config, Scan}
use awstest.SeatHold.Counter.Sparing.{adjust_remain-Spares}
use awstest.SeatHold.Guard.{any_confirmed}
use awstest.SeatHold.Guard.Sparing.{any_confirmed-Spares}
use awstest.SeatHold.Views.{CacheStore, Server, on_store, owner}
use awstest.SeatHold.Hold.{
  release_commands, released, release_seats, decrease, placed, duplicate_seat, confirmed_seat, held,
  hold_ttl, hold_commands, record_commands, finish, place, collect, try_hold_seats,
}
use awstest.SeatHold.Hold.Releasing.{
  gets, read, gets_outcome, release_commands-Spares, bump-Spares, restore-Spares,
}

module _ (config : Config) (scan : Scan) (show_id : ℕ) (ref : String) (other_show : ℕ) (y : Seat)
    (v : CacheValue) (other : v ≢ doc (text ref)) where
  abbrev theirs : Key
  theirs = seat other_show y

  released-Spares :
      (plan : List CacheCommand × ℕ)
      → All (SparesKey theirs) plan.0
      → Sends (SparesKey theirs) (released config scan show_id plan)
  unfolding released
  released-Spares plan h =
      bind-Sends (SparesKey theirs) _ _ (execute-Sends (SparesKey theirs) plan.0 h) λ _.
        bind-Sends (SparesKey theirs) _ _
          (restore-Spares theirs config scan show_id plan.1 (λ p. cc) (λ p. cc))
          λ _.
            bind-Sends (SparesKey theirs) _ _ (bump-Spares theirs config show_id (λ p. cc))
              (λ _. tt)

  plan-Spares :
      (ss : List Seat) (s : CacheStore) (vs : List CacheReply)
      → owner s other_show y ≡ some v
      → (vs ≡ []) ⊎ (vs ≡ map (read s show_id) ss)
      → All (SparesKey theirs) (release_commands show_id ref ss vs).0
  unfolding release_commands
  plan-Spares [] s vs h c = tt
  plan-Spares (x ∷ ss) s vs h (inl e) = rw e tt
  plan-Spares (x ∷ ss) s vs h (inr e) =
      rw e (release_commands-Spares show_id ref theirs v other s (λ p. cc) (x ∷ ss) h)

  pub release_keeps :
      (ss : List Seat) (fs : Faults) (s : CacheStore)
      → owner s other_show y ≡ some v
      → owner (on_store (release_seats config scan show_id ss ref) fs s).db other_show y ≡ some v
  unfolding release_seats run
  release_keeps [] fs s h = h
  release_keeps (x ∷ ss) fs s h =
      ap (λ u. owner u other_show y)
        (db-run-bind Key-discrete Member-discrete
          (λ vs. released config scan show_id (release_commands show_id ref (x ∷ ss) vs))
          (execute (gets show_id (x ∷ ss))) fs s)
      ∙ run-Spares Key-discrete Member-discrete theirs _ o.faults o.db
          (released-Spares _ (plan-Spares (x ∷ ss) s o.result h out.1))
      ∙ ap (λ u. owner u other_show y) out.0
      ∙ h
    where
      o : Outcome CacheStore (List CacheReply)
      o = on_store (execute (gets show_id (x ∷ ss))) fs s

      out : (o.db ≡ s) × ((o.result ≡ []) ⊎ (o.result ≡ map (read s show_id) (x ∷ ss)))
      out = gets_outcome show_id (x ∷ ss) fs s

  abbrev pub Keeps : {A : Type 0} → Cached A → Type 0
  Keeps m =
      (fs : Faults) (s : CacheStore)
      → owner s other_show y ≡ some v
      → owner (on_store m fs s).db other_show y ≡ some v

  pub Spares-Keeps : {A : Type 0} (m : Cached A) → Sends (SparesKey theirs) m → Keeps m
  Spares-Keeps m h fs s o = run-Spares Key-discrete Member-discrete theirs m fs s h ∙ o

  bind-Keeps :
      {A B : Type 0} (m : Cached A) (f : A → Cached B)
      → Keeps m
      → ((a : A) → Keeps (f a))
      → Keeps (m >>= f)
  bind-Keeps m f h g fs s o =
      ap (λ u. owner u other_show y) (db-run-bind Key-discrete Member-discrete f m fs s)
      ∙ g _ _ _ (h fs s o)

  if-Keeps :
      {A : Type 0} (b : Bool) (m n : Cached A) → Keeps m → Keeps n → Keeps (if b then m else n)
  if-Keeps true m n h g = h
  if-Keeps false m n h g = g

  module _ (now_ms : ℕ) (adjusts : Bool) where
    hold_commands-KeepsPresent :
        (ttl : ℕ) (ss : List Seat) → All (KeepsPresent theirs) (hold_commands show_id ref ttl ss)
    hold_commands-KeepsPresent ttl [] = tt
    hold_commands-KeepsPresent ttl (x ∷ ss) = (tt, hold_commands-KeepsPresent ttl ss)

    record_commands-Spares :
        (ttl : ℕ) (ss : List Seat)
        → All (SparesKey theirs) (record_commands show_id ref ttl now_ms ss)
    record_commands-Spares ttl ss =
        All-append (SparesKey theirs) _ _
          (All-append (SparesKey theirs) (map (λ s. sadd (hold show_id) (seat_member s)) ss) _
            (members ss) (expire_or_not (ttl == 0)))
          ((λ p. cc), tt)
      where
        members :
            (xs : List Seat)
            → All (SparesKey theirs) (map (λ s. sadd (hold show_id) (seat_member s)) xs)
        members [] = tt
        members (x ∷ xs) = ((λ p. cc), members xs)

        expire_or_not :
            (b : Bool) → All (SparesKey theirs) (if b then [] else expire (hold show_id) ttl ∷ [])
        expire_or_not true = tt
        expire_or_not false = (tt, tt)

    pub finish-Spares :
        (ttl : ℕ) (ss : List Seat)
        → Sends (SparesKey theirs) (finish config scan show_id ref ttl adjusts now_ms ss)
    unfolding finish
    finish-Spares ttl ss =
        bind-Sends (SparesKey theirs) _ _
          (execute-Sends (SparesKey theirs) _ (record_commands-Spares ttl ss))
          λ _. bind-Sends (SparesKey theirs) _ _ (decrease-Spares adjusts (length ss)) λ _.
            bind-Sends (SparesKey theirs) _ (λ _. ret held)
              (bump-Spares theirs config show_id (λ p. cc)) (λ _. tt)
      where
        decrease-Spares :
            (b : Bool) (n : ℕ) → Sends (SparesKey theirs) (decrease config scan show_id b ttl n)
        decrease-Spares true n =
            adjust_remain-Spares theirs config scan show_id (λ p. cc) (λ p. cc) _ ttl
        decrease-Spares false n = tt

    place-Keeps :
        (ttl : ℕ) (ss : List Seat) → Keeps (place config scan show_id ss ref ttl adjusts now_ms)
    unfolding place placed run
    place-Keeps ttl ss =
        bind-Keeps (execute (hold_commands show_id ref ttl ss)) _
          (λ fs s.
            run-keeps Key-discrete Member-discrete (λ u. owner u other_show y ≡ some v)
              (λ c u. apply-KeepsPresent Key-discrete Member-discrete theirs v c u) _ fs s
              (execute-Sends (KeepsPresent theirs) _ (hold_commands-KeepsPresent ttl ss)))
          λ rs.
            let outcome = collect ss rs in
            if-Keeps outcome.1 _ _ (Spares-Keeps _ (finish-Spares ttl outcome.0)) (
              bind-Keeps (release_seats config scan show_id outcome.0 ref) (λ _. ret duplicate_seat)
                (release_keeps outcome.0) (λ _ fs s o. o))

    pub try_hold-Keeps :
        (ss : List Seat) (ttl_sec : Option ℕ)
        → Keeps (try_hold_seats config scan show_id ss ref ttl_sec adjusts now_ms)
    unfolding try_hold_seats run
    try_hold-Keeps [] ttl_sec = λ fs s o. o
    try_hold-Keeps (x ∷ ss) ttl_sec =
        bind-Keeps (any_confirmed show_id (x ∷ ss)) _
          (Spares-Keeps _ (any_confirmed-Spares theirs show_id (x ∷ ss)))
          λ guarded.
            if-Keeps guarded (ret confirmed_seat) _ (λ fs s o. o)
              (place_at (hold_ttl (elim ttl_sec [ none ↦ config.seat_hold_ttl | some t ↦ t ])))
      where
        place_at : (t : ℕ) → Keeps (place config scan show_id (x ∷ ss) ref t adjusts now_ms)
        place_at t = place-Keeps t (x ∷ ss)

module _ (r : Server) (config : Config) (scan : Scan) (show_id : ℕ) (ref : String) (other_show : ℕ)
    (y : Seat) (fs : Faults) (d : r.Db) (v : CacheValue) (other : v ≢ doc (text ref))
    (theirs_now : owner (r.look d) other_show y ≡ some v) where
  abbrev Still : {A : Type 0} → Cached A → Type 0
  Still m = owner (r.look (run r m fs d).db) other_show y ≡ some v

  moved :
      {A : Type 0} (m : Cached A) → Keeps config scan show_id ref other_show y v other m → Still m
  moved m k = ap (λ s. owner s other_show y) (look-run r m fs d) ∙ k fs (r.look d) theirs_now

  -- Whoever owns a seat, other than the caller's reference, owns it after any attempt to hold.
  pub try_hold-keeps_owner :
      (ss : List Seat) (ttl_sec : Option ℕ) (adjusts : Bool) (now_ms : ℕ)
      → Still (try_hold_seats config scan show_id ss ref ttl_sec adjusts now_ms)
  try_hold-keeps_owner ss ttl_sec adjusts now_ms =
      moved _
        (try_hold-Keeps config scan show_id ref other_show y v other now_ms adjusts ss ttl_sec)

  -- And after any release.
  pub release-keeps_owner : (ss : List Seat) → Still (release_seats config scan show_id ss ref)
  release-keeps_owner ss = moved _ (release_keeps config scan show_id ref other_show y v other ss)
