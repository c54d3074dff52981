-- ===== src/Cache/Sends.antt =====
-- The commands that the methods of `_SafeRedisClient` send.
use awstest.Prelude.{ℕ, true, false, Option, none, some, List, [], ◌∷◌, All}
use awstest.Prelude.Int.{pos}
use awstest.Redis.Commands.{get, set, delete, sadd, scard, incrby, expire}
use awstest.Redis.Program.{ret}
use awstest.Redis.Sends.{Sends, ScriptSends, pipeline-Sends}
use awstest.Redis.Spares.{Spares}
use awstest.Cache.{Key, Member}
use awstest.Cache.Safe as Safe
use awstest.Cache.Safe.{
  Cached, CacheCommand, CacheReply, CacheScript, CacheValue, execute, one, eval,
}

abbrev pub SparesKey : Key → CacheCommand → Type 0
SparesKey = Spares

module _ (Q : CacheCommand → Type 0) where
  pub execute-Sends : (cs : List CacheCommand) → All Q cs → Sends Q (execute cs)
  unfolding execute
  execute-Sends cs h = (pipeline-Sends Q cs h, λ r. tt)

  pub one-Sends :
      {A : Type 0} (c : CacheCommand) (default : A) (read : CacheReply → A)
      → Q c
      → Sends Q (one c default read)
  unfolding one
  one-Sends {A} c default read h = (pipeline-Sends Q (c ∷ []) (h, tt), go)
    where
      go :
          (rs : Option (List CacheReply))
          → Sends Q (elim rs as (λ _. Cached A) [
            | none ↦ ret default
            | some rs ↦ elim rs [ [] ↦ ret default | r ∷ more ↦ ret (read r) ]
          ])
      go none = tt
      go (some []) = tt
      go (some (r ∷ more)) = tt

  pub eval-Sends : (p : CacheScript) → ScriptSends Q p → Sends Q (eval p)
  unfolding eval
  eval-Sends p h = (h, λ r. tt)

  pub get-Sends : (k : Key) → Q (get k) → Sends Q (Safe.get k)
  unfolding Safe.get
  get-Sends k h = one-Sends (get k) _ _ h

  pub set-Sends : (k : Key) (v : CacheValue) → Q (set k v false none) → Sends Q (Safe.set k v)
  unfolding Safe.set
  set-Sends k v h = one-Sends (set k v false none) _ _ h

  pub setnx-Sends : (k : Key) (v : CacheValue) → Q (set k v true none) → Sends Q (Safe.setnx k v)
  unfolding Safe.setnx
  setnx-Sends k v h = one-Sends (set k v true none) _ _ h

  pub delete-Sends : (k : Key) → Q (delete k) → Sends Q (Safe.delete k)
  unfolding Safe.delete
  delete-Sends k h = one-Sends (delete k) _ _ h

  pub sadd-Sends : (k : Key) (m : Member) → Q (sadd k m) → Sends Q (Safe.sadd k m)
  unfolding Safe.sadd
  sadd-Sends k m h = one-Sends (sadd k m) _ _ h

  pub scard-Sends : (k : Key) → Q (scard k) → Sends Q (Safe.scard k)
  unfolding Safe.scard
  scard-Sends k h = one-Sends (scard k) _ _ h

  pub incr-Sends : (k : Key) → Q (incrby k (pos 1)) → Sends Q (Safe.incr k)
  unfolding Safe.incr
  incr-Sends k h = one-Sends (incrby k (pos 1)) _ _ h

  pub expire-Sends : (k : Key) (ttl : ℕ) → Q (expire k ttl) → Sends Q (Safe.expire k ttl)
  unfolding Safe.expire
  expire-Sends k ttl h = one-Sends (expire k ttl) _ _ h
