-- ===== src/SeatHold/Hold/Outcomes.antt =====
-- What an attempt to hold leaves, when no request fails.
use awstest.Prelude.{
  ℕ, String, subst, ◌≡◌, ◌≢◌, inr, refl, sym, ap, ◌∙◌, Bool, true, false, Option, none, some, List,
  [], ◌∷◌, All, All-map, Any, if◌then◌else◌,
}
use awstest.Prelude.Int.{pos}
use awstest.Redis.Commands.{Entry, num, doc, apply, answer}
use awstest.SeatHold.Guard.Sparing.{any_confirmed-Spares}
use awstest.Redis.Program.{Faults, Outcome, run, ret}
use awstest.Redis.Simulation.{result-run, look-run}
use awstest.Redis.Pipeline.{replies, db-run-bind, result-run-bind, no-faults-run}
use awstest.Redis.Spares.{value_of, run-Spares}
use awstest.Cache.{Seat, seat, Doc, Member, text, Key-discrete, Member-discrete}
use awstest.Cache.Safe.Answers.{result-execute, db-execute}
use awstest.SeatHold.Hold.Placing.{collect-All, holding_free, hold_commands-Succeeds}
use awstest.SeatHold.Hold.Ownership.{finish-Spares}
use awstest.Cache.Safe.{Cached, CacheCommand, CacheReply, CacheValue, execute}
use awstest.SeatHold.Config.{Config, Scan}
use awstest.SeatHold.Guard.{any_confirmed}
use awstest.SeatHold.Views.{CacheStore, Server, on_store, owner}
use awstest.SeatHold.Hold.{
  finish, release_seats, HoldCode, held, confirmed_seat, duplicate_seat, hold_commands, collect,
  place, placed, try_hold_seats, hold_ttl,
}

module _ (config : Config) (scan : Scan) (show_id : ℕ) (ref : String) (adjusts : Bool)
    (now_ms : ℕ) where
  finish_keeps :
      (ttl : ℕ) (ss : List Seat) (fs : Faults) (s : CacheStore) (x : Seat)
      → owner s show_id x ≡ some (doc (text ref))
      → owner (on_store (finish config scan show_id ref ttl adjusts now_ms ss) fs s).db show_id x
        ≡ some (doc (text ref))
  finish_keeps ttl ss fs s x h =
      run-Spares Key-discrete Member-discrete (seat show_id x) _ fs s (
        finish-Spares config scan show_id ref show_id x (num (pos 0)) (λ p. cc) now_ms adjusts ttl
          ss)
      ∙ h

  placed_held :
      (ttl : ℕ) (b : Bool) (ss hs : List Seat) (fs : Faults) (s : CacheStore)
      → (b ≡ true → All (λ x. owner s show_id x ≡ some (doc (text ref))) ss)
      → let o = on_store (placed config scan show_id ref ttl adjusts now_ms (hs, b)) fs s in
        o.result ≡ held → All (λ x. owner o.db show_id x ≡ some (doc (text ref))) ss
  unfolding placed run
  placed_held ttl true ss hs fs s h e = All-map (λ x p. finish_keeps ttl hs fs s x p) ss (h refl)
  placed_held ttl false ss hs fs s h e = absurd (
      refused (
        sym (
          result-run-bind Key-discrete Member-discrete (λ _. ret duplicate_seat)
            (release_seats config scan show_id hs ref) fs s)
        ∙ e))
    where
      refused : duplicate_seat ≡ held → ⊥
      refused p = cc

  place_held :
      (ttl : ℕ) (ss : List Seat) (s : CacheStore)
      → let o = on_store (place config scan show_id ss ref ttl adjusts now_ms) [] s in
        o.result ≡ held → All (λ x. owner o.db show_id x ≡ some (doc (text ref))) ss
  unfolding place
  place_held ttl ss s e =
      subst (λ u. All (λ x. owner u show_id x ≡ some (doc (text ref))) ss)
        (sym (db-run-bind Key-discrete Member-discrete f m [] s))
        (placed_held ttl _ ss _ o.faults o.db
          (λ q.
            subst (λ u. All (λ x. owner u show_id x ≡ some (doc (text ref))) ss)
              (sym (db-execute cs s))
              (collect-All show_id ref ttl ss s (
                ap (λ rs. (collect ss rs).1)
                  (sym (result-execute cs s (hold_commands-Succeeds show_id ref ttl ss)))
                ∙ q)))
          (sym (result-run-bind Key-discrete Member-discrete f m [] s) ∙ e))
    where
      cs : List CacheCommand
      cs = hold_commands show_id ref ttl ss

      m : Cached (List CacheReply)
      m = execute cs

      f : List CacheReply → Cached HoldCode
      f rs = placed config scan show_id ref ttl adjusts now_ms (collect ss rs)

      o : Outcome CacheStore (List CacheReply)
      o = on_store m [] s

  -- The first seat is taken: nothing is released.
  place_refused :
      (ttl : ℕ) (x : Seat) (ss : List Seat) (s : CacheStore) (y : Seat) (e : Entry Doc Member)
      → s (seat show_id x) ≡ some e
      → Any (λ z. z ≡ y) ss
      → s (seat show_id y) ≡ none
      → owner
          (on_store (place config scan show_id (x ∷ ss) ref ttl adjusts now_ms) [] s).db
          show_id
          y
        ≡ some (doc (text ref))
  unfolding place placed collect replies apply answer run release_seats
  place_refused ttl x ss s y e h m free =
      ap (λ u. owner u show_id y) (db-run-bind Key-discrete Member-discrete f (execute cs) [] s)
      ∙ ap (λ rs. owner (on_store (f rs) o.faults o.db).db show_id y)
          (result-execute cs s (hold_commands-Succeeds show_id ref ttl (x ∷ ss)))
      ∙ rw h (ap (λ u. owner u show_id y) (db-execute cs s))
      ∙ holding_free show_id ref ttl (x ∷ ss) s y (inr m) free
    where
      cs : List CacheCommand
      cs = hold_commands show_id ref ttl (x ∷ ss)

      f : List CacheReply → Cached HoldCode
      f rs = placed config scan show_id ref ttl adjusts now_ms (collect (x ∷ ss) rs)

      o : Outcome CacheStore (List CacheReply)
      o = on_store (execute cs) [] s

  abbrev attempt : Option ℕ → List Seat → Cached HoldCode
  attempt ttl_sec ss = try_hold_seats config scan show_id ss ref ttl_sec adjusts now_ms

  abbrev time_to_live : Option ℕ → ℕ
  time_to_live ttl_sec = hold_ttl (elim ttl_sec [ none ↦ config.seat_hold_ttl | some t ↦ t ])

  -- What runs after the guard.
  abbrev unless_guarded : Option ℕ → List Seat → Bool → Cached HoldCode
  unless_guarded ttl_sec ss guarded =
      if guarded
      then ret confirmed_seat
      else place config scan show_id ss ref (time_to_live ttl_sec) adjusts now_ms

  after_guard :
      (b : Bool) (ttl_sec : Option ℕ) (ss : List Seat) (s : CacheStore)
      → let o = on_store (unless_guarded ttl_sec ss b) [] s in
        o.result ≡ held → All (λ x. owner o.db show_id x ≡ some (doc (text ref))) ss
  unfolding run
  after_guard true ttl_sec ss s h = absurd (confirmed h)
    where
      confirmed : confirmed_seat ≡ held → ⊥
      confirmed p = cc
  after_guard false ttl_sec ss s h = place_held (time_to_live ttl_sec) ss s h

  attempt_held :
      (ttl_sec : Option ℕ) (ss : List Seat) (s : CacheStore)
      → let o = on_store (attempt ttl_sec ss) [] s in
        o.result ≡ held → All (λ x. owner o.db show_id x ≡ some (doc (text ref))) ss
  unfolding try_hold_seats
  attempt_held ttl_sec [] s h = tt
  attempt_held ttl_sec (x ∷ ss) s h =
      subst (λ u. All (λ y. owner u show_id y ≡ some (doc (text ref))) (x ∷ ss))
        (sym (
          db-run-bind Key-discrete Member-discrete f m [] s
          ∙ ap (λ fs. (on_store (f o.result) fs o.db).db)
              (no-faults-run Key-discrete Member-discrete m s)))
        (after_guard o.result ttl_sec (x ∷ ss) o.db (
          sym (
            result-run-bind Key-discrete Member-discrete f m [] s
            ∙ ap (λ fs. (on_store (f o.result) fs o.db).result)
                (no-faults-run Key-discrete Member-discrete m s))
          ∙ h))
    where
      m : Cached Bool
      m = any_confirmed show_id (x ∷ ss)

      f : Bool → Cached HoldCode
      f = unless_guarded ttl_sec (x ∷ ss)

      o : Outcome CacheStore Bool
      o = on_store m [] s

  value_of-none : (e : Option (Entry Doc Member)) → value_of e ≡ none → e ≡ none
  value_of-none none h = refl
  value_of-none (some e) h = cc

  value_of-some :
      (e : Option (Entry Doc Member)) (v : CacheValue)
      → value_of e ≡ some v
      → (e' : Entry Doc Member) × (e ≡ some e')
  value_of-some none v h = cc
  value_of-some (some e) v h = (e, refl)

  after_guard_refused :
      (b : Bool) (ttl_sec : Option ℕ) (x : Seat) (ss : List Seat) (s : CacheStore) (y : Seat)
      (v : CacheValue)
      → owner s show_id x ≡ some v
      → Any (λ z. z ≡ y) ss
      → owner s show_id y ≡ none
      → let o = on_store (unless_guarded ttl_sec (x ∷ ss) b) [] s in
        o.result ≢ confirmed_seat → owner o.db show_id y ≡ some (doc (text ref))
  unfolding run
  after_guard_refused true ttl_sec x ss s y v h m free r = absurd (r refl)
  after_guard_refused false ttl_sec x ss s y v h m free r =
      let (e, q) = value_of-some _ v h in
      place_refused (time_to_live ttl_sec) x ss s y e q m (value_of-none _ free)

  attempt_refused :
      (ttl_sec : Option ℕ) (x : Seat) (ss : List Seat) (s : CacheStore) (y : Seat) (v : CacheValue)
      → owner s show_id x ≡ some v
      → Any (λ z. z ≡ y) ss
      → owner s show_id y ≡ none
      → let o = on_store (attempt ttl_sec (x ∷ ss)) [] s in
        o.result ≢ confirmed_seat → owner o.db show_id y ≡ some (doc (text ref))
  unfolding try_hold_seats
  attempt_refused ttl_sec x ss s y v h m free r =
      ap (λ u. owner u show_id y)
        (db-run-bind Key-discrete Member-discrete f g [] s
          ∙ ap (λ fs. (on_store (f o.result) fs o.db).db)
              (no-faults-run Key-discrete Member-discrete g s))
      ∙ after_guard_refused o.result ttl_sec x ss o.db y v (guard_keeps x ∙ h) m
          (guard_keeps y ∙ free)
          (λ q. r (
            result-run-bind Key-discrete Member-discrete f g [] s
            ∙ ap (λ fs. (on_store (f o.result) fs o.db).result)
                (no-faults-run Key-discrete Member-discrete g s)
            ∙ q))
    where
      g : Cached Bool
      g = any_confirmed show_id (x ∷ ss)

      f : Bool → Cached HoldCode
      f = unless_guarded ttl_sec (x ∷ ss)

      o : Outcome CacheStore Bool
      o = on_store g [] s

      guard_keeps : (z : Seat) → owner o.db show_id z ≡ owner s show_id z
      guard_keeps z =
          run-Spares Key-discrete Member-discrete (seat show_id z) g [] s
            (any_confirmed-Spares (seat show_id z) show_id (x ∷ ss))

  module _ (r : Server) (d : r.Db) (ttl_sec : Option ℕ) where
    abbrev tried : List Seat → Outcome r.Db HoldCode
    tried ss = run r (attempt ttl_sec ss) [] d

    -- If no request fails and try_hold_seats answers HELD, every seat of the request is owned by the booking reference.
    pub try_hold-owns :
        (ss : List Seat)
        → (tried ss).result ≡ held
        → All (λ x. owner (r.look (tried ss).db) show_id x ≡ some (doc (text ref))) ss
    try_hold-owns ss h =
        subst (λ u. All (λ x. owner u show_id x ≡ some (doc (text ref))) ss)
          (sym (look-run r (attempt ttl_sec ss) [] d))
          (attempt_held ttl_sec ss (r.look d) (sym (result-run r (attempt ttl_sec ss) [] d) ∙ h))

    -- If no request fails, the first seat is taken and the answer is not CONFIRMED_SEAT, then a free seat later in
    -- the request is left owned by the booking reference, although the attempt has failed.
    pub try_hold-leaks :
        (x : Seat) (ss : List Seat) (y : Seat) (v : CacheValue)
        → owner (r.look d) show_id x ≡ some v
        → Any (λ z. z ≡ y) ss
        → owner (r.look d) show_id y ≡ none
        → (tried (x ∷ ss)).result ≢ confirmed_seat
        → owner (r.look (tried (x ∷ ss)).db) show_id y ≡ some (doc (text ref))
    try_hold-leaks x ss y v h m free n =
        ap (λ s. owner s show_id y) (look-run r (attempt ttl_sec (x ∷ ss)) [] d)
        ∙ attempt_refused ttl_sec x ss (r.look d) y v h m free
            (λ q. n (result-run r (attempt ttl_sec (x ∷ ss)) [] d ∙ q))
