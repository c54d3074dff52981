-- ===== src/Redis/Spares.antt =====
-- Programs that leave the value at a key alone (they may change its time to live).
use awstest.Prelude.{
  ℕ, true, false, ◌≡◌, refl, ◌≢◌, ◌∙◌, ap, Option, none, some, List, [], ◌∷◌, All, arith, if_neg,
  if_pos, fun_ext,
}
use awstest.Redis.Commands.{
  Store, Entry, Value, Command, get, set, delete, incrby, expire, persist, sadd, srem, sismember,
  scard, smembers, apply, update, after,
}
use awstest.Redis.Program.{Client, Faults}
use awstest.Redis.Simulation.{run_store}
use awstest.Redis.Pipeline.{apply_other, after_all}
use awstest.Redis.Sends.{Sends, run-keeps}

abbrev pub value_of : {D M : Type 0} → Option (Entry D M) → Option (Value D M)
value_of none = none
value_of (some e) = some e.value

module _ {K D M : Type 0} where
  abbrev pub Spares : K → Command K D M → Type 0
  Spares j (get k) = Unit
  Spares j (set k v nx ex) = k ≢ j
  Spares j (delete k) = k ≢ j
  Spares j (incrby k n) = k ≢ j
  Spares j (expire k ttl) = Unit
  Spares j (persist k) = Unit
  Spares j (sadd k m) = k ≢ j
  Spares j (srem k m) = k ≢ j
  Spares j (sismember k m) = Unit
  Spares j (scard k) = Unit
  Spares j (smembers k) = Unit

  -- SET NX leaves a key that is there, too.
  abbrev pub KeepsPresent : K → Command K D M → Type 0
  KeepsPresent j (set k v true ex) = Unit
  KeepsPresent j (set k v false ex) = k ≢ j
  KeepsPresent j (get k) = Unit
  KeepsPresent j (delete k) = k ≢ j
  KeepsPresent j (incrby k n) = k ≢ j
  KeepsPresent j (expire k ttl) = Unit
  KeepsPresent j (persist k) = Unit
  KeepsPresent j (sadd k m) = k ≢ j
  KeepsPresent j (srem k m) = k ≢ j
  KeepsPresent j (sismember k m) = Unit
  KeepsPresent j (scard k) = Unit
  KeepsPresent j (smembers k) = Unit

module _ {K D M : Type 0} (key : Discrete K) (member : Discrete M) where
  -- The same key: the value after a command that only sets the time to live.
  same_value :
      (k j : K) (e : Option (Entry D M)) (s : Store K D M)
      → value_of e ≡ value_of (s k)
      → value_of (update key member k e s j) ≡ value_of (s j)
  unfolding update
  same_value k j e s h = elim (key k j) [
    | yes p ↦ rw (if_pos (key k j) p e (s j)) (h ∙ ap (λ i. value_of (s i)) p)
    | no n ↦ rw (if_neg (key k j) n e (s j)) refl
  ]

  pub apply-Spares :
      (j : K) (c : Command K D M) (s : Store K D M)
      → Spares j c
      → value_of ((apply key member c s).1 j) ≡ value_of (s j)
  unfolding apply after
  apply-Spares j (get k) s h = same_value k j _ s refl
  apply-Spares j (set k v nx ex) s h = ap value_of (apply_other key member (set k v nx ex) s j h)
  apply-Spares j (delete k) s h = ap value_of (apply_other key member (delete k) s j h)
  apply-Spares j (incrby k n) s h = ap value_of (apply_other key member (incrby k n) s j h)
  apply-Spares j (expire k ttl) s h = same_value k j _ s (ground arith)
  apply-Spares j (persist k) s h = same_value k j _ s (ground arith)
  apply-Spares j (sadd k m) s h = ap value_of (apply_other key member (sadd k m) s j h)
  apply-Spares j (srem k m) s h = ap value_of (apply_other key member (srem k m) s j h)
  apply-Spares j (sismember k m) s h = same_value k j _ s refl
  apply-Spares j (scard k) s h = same_value k j _ s refl
  apply-Spares j (smembers k) s h = same_value k j _ s refl

  pub after_all-Spares :
      (j : K) (cs : List (Command K D M)) (s : Store K D M)
      → All (Spares j) cs
      → value_of (after_all key member cs s j) ≡ value_of (s j)
  unfolding after_all
  after_all-Spares j [] s h = refl
  after_all-Spares j (c ∷ cs) s h = after_all-Spares j cs _ h.1 ∙ apply-Spares j c s h.0

  pub run-Spares :
      {A : Type 0} (j : K) (m : Client K D M A) (fs : Faults) (s : Store K D M)
      → Sends (Spares j) m
      → value_of ((run_store key member m fs s).db j) ≡ value_of (s j)
  run-Spares j m fs s h =
      run-keeps key member (λ t. value_of (t j) ≡ value_of (s j))
        (λ c t q i. apply-Spares j c t q ∙ i) m fs s h refl

  -- Reading changes nothing.
  pub apply-get : (k : K) (s : Store K D M) → (apply key member (get k) s).1 ≡ s
  unfolding apply after update
  apply-get k s = fun_ext λ j. elim (key k j) [
    | yes p ↦ rw (if_pos (key k j) p (s k) (s j)) (ap s p)
    | no n ↦ rw (if_neg (key k j) n (s k) (s j)) refl
  ]

  apply-set_nx :
      (k j : K) (w : Value D M) (ex : Option ℕ) (s : Store K D M) (v : Value D M)
      → value_of (s j) ≡ some v
      → value_of ((apply key member (set k w true ex) s).1 j) ≡ some v
  unfolding apply after update
  apply-set_nx k j w ex s v h = ground arith

  pub apply-KeepsPresent :
      (j : K) (v : Value D M) (c : Command K D M) (s : Store K D M)
      → KeepsPresent j c
      → value_of (s j) ≡ some v
      → value_of ((apply key member c s).1 j) ≡ some v
  apply-KeepsPresent j v (set k w true ex) s h i = apply-set_nx k j w ex s v i
  apply-KeepsPresent j v (set k w false ex) s h i = apply-Spares j (set k w false ex) s h ∙ i
  apply-KeepsPresent j v (get k) s h i = apply-Spares j (get k) s h ∙ i
  apply-KeepsPresent j v (delete k) s h i = apply-Spares j (delete k) s h ∙ i
  apply-KeepsPresent j v (incrby k n) s h i = apply-Spares j (incrby k n) s h ∙ i
  apply-KeepsPresent j v (expire k ttl) s h i = apply-Spares j (expire k ttl) s h ∙ i
  apply-KeepsPresent j v (persist k) s h i = apply-Spares j (persist k) s h ∙ i
  apply-KeepsPresent j v (sadd k m) s h i = apply-Spares j (sadd k m) s h ∙ i
  apply-KeepsPresent j v (srem k m) s h i = apply-Spares j (srem k m) s h ∙ i
  apply-KeepsPresent j v (sismember k m) s h i = apply-Spares j (sismember k m) s h ∙ i
  apply-KeepsPresent j v (scard k) s h i = apply-Spares j (scard k) s h ∙ i
  apply-KeepsPresent j v (smembers k) s h i = apply-Spares j (smembers k) s h ∙ i
