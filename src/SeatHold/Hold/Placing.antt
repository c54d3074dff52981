-- ===== src/SeatHold/Hold/Placing.antt =====
-- The pipeline of SET NX commands of `try_hold_seats`: what it leaves on the seats' keys.
use awstest.Prelude.{
  ℕ, String, ◌≡◌, ◌⊎◌, inl, inr, refl, ap, ◌∙◌, Bool, true, false, none, some, List, [], ◌∷◌, All,
  Any, arith, if◌then◌else◌, Bool-cases,
}
use awstest.Redis.Commands.{doc, set, apply, answer, after, update}
use awstest.Redis.Pipeline.{replies, after_all}
use awstest.Redis.Spares.{value_of, apply-KeepsPresent}
use awstest.Cache.{Key, Seat, seat, text, Key-discrete, Member-discrete}
use awstest.Cache.Safe.Answers.{Succeeds}
use awstest.Cache.Safe.{CacheCommand, CacheValue}
use awstest.SeatHold.Guard.{reply_flag}
use awstest.SeatHold.Views.{CacheStore}
use awstest.SeatHold.Hold.{hold_commands, expiry, collect}

module _ (show_id : ℕ) (ref : String) (ttl : ℕ) where
  abbrev pub mine : CacheValue
  mine = doc (text ref)

  abbrev pub holding : List Seat → CacheStore → CacheStore
  holding ss s = after_all Key-discrete Member-discrete (hold_commands show_id ref ttl ss) s

  abbrev pub set_seat : Seat → CacheCommand
  set_seat x = set (seat show_id x) mine true (expiry ttl)

  -- What is there stays there.
  pub holding_keeps :
      (ss : List Seat) (s : CacheStore) (j : Key) (v : CacheValue)
      → value_of (s j) ≡ some v
      → value_of (holding ss s j) ≡ some v
  unfolding after_all
  holding_keeps [] s j v h = h
  holding_keeps (x ∷ ss) s j v h =
      holding_keeps ss _ j v
        (apply-KeepsPresent Key-discrete Member-discrete j v (set_seat x) s tt h)

  set_free :
      (x : Seat) (s : CacheStore)
      → s (seat show_id x) ≡ none
      → value_of ((apply Key-discrete Member-discrete (set_seat x) s).1 (seat show_id x))
        ≡ some mine
  unfolding apply after update
  set_free x s h = ground arith

  set_flag :
      (x : Seat) (s : CacheStore)
      → reply_flag (apply Key-discrete Member-discrete (set_seat x) s).0 ≡ true
      → s (seat show_id x) ≡ none
  unfolding apply answer
  set_flag x s h = ground arith

  set_other :
      (x y : Seat) (s : CacheStore)
      → s (seat show_id y) ≡ none
      → (s' : CacheStore) → s' ≡ (apply Key-discrete Member-discrete (set_seat x) s).1
      → (s' (seat show_id y) ≡ none) ⊎ (value_of (s' (seat show_id y)) ≡ some mine)
  unfolding apply after update
  set_other x y s h s' e = rw e (ground arith)

  -- A free seat of the request gets the reference.
  pub holding_free :
      (ss : List Seat) (s : CacheStore) (y : Seat)
      → Any (λ x. x ≡ y) ss
      → s (seat show_id y) ≡ none
      → value_of (holding ss s (seat show_id y)) ≡ some mine
  unfolding after_all
  holding_free [] s y m h = elim m [ ]
  holding_free (x ∷ ss) s y (inl e) h =
      holding_keeps ss _ _ mine (rw (← e) (set_free x s (ap (λ z. s (seat show_id z)) e ∙ h)))
  holding_free (x ∷ ss) s y (inr m) h = elim (set_other x y s h _ refl) [
    | inl free ↦ holding_free ss _ y m free
    | inr ours ↦ holding_keeps ss _ _ mine ours
  ]

  -- If no SET NX is refused, every seat of the request has the reference.
  pub collect-All :
      (ss : List Seat) (s : CacheStore)
      → (collect ss (replies Key-discrete Member-discrete (hold_commands show_id ref ttl ss) s)).1
        ≡ true
      → All (λ x. value_of (holding ss s (seat show_id x)) ≡ some mine) ss
  unfolding collect replies after_all
  collect-All [] s h = tt
  collect-All (x ∷ ss) s h =
      elim (Bool-cases (reply_flag (apply Key-discrete Member-discrete (set_seat x) s).0)) [
        | inl e ↦ (
          holding_keeps ss _ _ mine (set_free x s (set_flag x s e)),
          collect-All ss _ (collect_rest _ e h),
        )
        | inr e ↦ absurd (collect_refused _ e h)
      ]
    where
      rest : List Seat × Bool
      rest = collect ss (
          replies Key-discrete Member-discrete (hold_commands show_id ref ttl ss)
            (apply Key-discrete Member-discrete (set_seat x) s).1)

      collect_rest :
          (b : Bool)
          → b ≡ true
          → (if◌then◌else◌ {A = List Seat × Bool} b (x ∷ rest.0, rest.1) ([], false)).1 ≡ true
          → rest.1 ≡ true
      collect_rest true p q = q
      collect_rest false p q = cc

      collect_refused :
          (b : Bool)
          → b ≡ false
          → (if◌then◌else◌ {A = List Seat × Bool} b (x ∷ rest.0, rest.1) ([], false)).1 ≡ true
          → ⊥
      collect_refused true p q = cc
      collect_refused false p q = cc

  set-Succeeds : (x : Seat) → Succeeds (set_seat x)
  unfolding answer
  set-Succeeds x e = ground arith

  pub hold_commands-Succeeds : (ss : List Seat) → All Succeeds (hold_commands show_id ref ttl ss)
  hold_commands-Succeeds [] = tt
  hold_commands-Succeeds (x ∷ ss) = (set-Succeeds x, hold_commands-Succeeds ss)
