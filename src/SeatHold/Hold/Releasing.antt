-- ===== src/SeatHold/Hold/Releasing.antt =====
-- What the commands of a release do to the key of another owner.
use awstest.Prelude.{
  ℕ, zero, suc, String, ◌≡◌, ◌≢◌, ◌⊎◌, inl, inr, refl, ap, ◌∙◌, true, false, Option, none, some,
  List, [], ◌∷◌, All, map, arith, ◌==◌, str_eq_iff, Bool-cases,
}
use awstest.Prelude.Int.{pos}
use awstest.Redis.Commands.{Entry, num, doc, set_of, get, apply, answer}
use awstest.Redis.Program.{Faults, run}
use awstest.Redis.Pipeline.{replies, after_all, pipeline-replies, pipeline-store}
use awstest.Redis.Sends.{Sends, bind-Sends, if-Sends}
use awstest.Redis.Spares.{value_of, apply-get}
use awstest.Cache.{
  Key, Seat, seat, remain, remain_dirty, hold, hold_rev, Doc, Member, text, meta, confirmed_seats,
  Key-discrete, Member-discrete,
}
use awstest.Cache.Safe.{CacheCommand, CacheReply, CacheValue, execute}
use awstest.Cache.Sends.{SparesKey, incr-Sends, expire-Sends}
use awstest.SeatHold.Config.{Config, Scan}
use awstest.SeatHold.Counter.Sparing.{adjust_remain-Spares}
use awstest.SeatHold.Views.{CacheStore, on_store}
use awstest.SeatHold.Hold.{holds, release_commands, restore, bump_hold_revision}

-- The answer of GET at the seat, and that reading leaves the store.
abbrev pub gets : ℕ → List Seat → List CacheCommand
gets show_id = map (λ s. get (seat show_id s))

abbrev pub read : CacheStore → ℕ → Seat → CacheReply
read s show_id x = answer Key-discrete Member-discrete (get (seat show_id x)) (s (seat show_id x))

pub after_all-gets :
    (show_id : ℕ) (ss : List Seat) (s : CacheStore)
    → after_all Key-discrete Member-discrete (gets show_id ss) s ≡ s
unfolding after_all
after_all-gets show_id [] s = refl
after_all-gets show_id (x ∷ ss) s =
    after_all-gets show_id ss _ ∙ apply-get Key-discrete Member-discrete (seat show_id x) s

pub replies-gets :
    (show_id : ℕ) (ss : List Seat) (s : CacheStore)
    → replies Key-discrete Member-discrete (gets show_id ss) s ≡ map (read s show_id) ss
unfolding replies apply
replies-gets show_id [] s = refl
replies-gets show_id (x ∷ ss) s =
    ap (λ rs. read s show_id x ∷ rs)
      (ap (replies Key-discrete Member-discrete (gets show_id ss))
          (apply-get Key-discrete Member-discrete (seat show_id x) s)
        ∙ replies-gets show_id ss s)

pub served :
    (show_id : ℕ) (ss : List Seat) (s : CacheStore)
    → let o = on_store (execute (gets show_id ss)) [] s in
      (o.db ≡ s) × ((o.result ≡ []) ⊎ (o.result ≡ map (read s show_id) ss))
unfolding execute run
served show_id ss s = (
  pipeline-store Key-discrete Member-discrete (gets show_id ss) s ∙ after_all-gets show_id ss s,
  ground (
    arith,
    pipeline-replies Key-discrete Member-discrete (gets show_id ss) s,
    replies-gets show_id ss s,
  ),
)

pub gets_outcome :
    (show_id : ℕ) (ss : List Seat) (fs : Faults) (s : CacheStore)
    → let o = on_store (execute (gets show_id ss)) fs s in
      (o.db ≡ s) × ((o.result ≡ []) ⊎ (o.result ≡ map (read s show_id) ss))
unfolding execute run
gets_outcome show_id ss [] s = served show_id ss s
gets_outcome show_id ss (true ∷ fs) s = (refl, inl refl)
gets_outcome show_id ss (false ∷ fs) s = served show_id ss s

holds-value :
    (ref : String) (k : Key) (t : Option ℕ) (v : CacheValue)
    → holds ref (answer Key-discrete Member-discrete (get k) (some (record { value = v; ttl = t })))
      ≡ true
    → v ≡ doc (text ref)
unfolding holds answer
holds-value ref k t (num n) h = cc
holds-value ref k t (set_of ms) h = cc
holds-value ref k t (doc (text s)) h = ap (λ u. doc (text u)) ((str_eq_iff s ref).0 h)
holds-value ref k t (doc (meta m)) h = cc
holds-value ref k t (doc (confirmed_seats cs)) h = cc

holds-answer :
    (ref : String) (k : Key) (o : Option (Entry Doc Member))
    → holds ref (answer Key-discrete Member-discrete (get k) o) ≡ true
    → value_of o ≡ some (doc (text ref))
unfolding holds answer
holds-answer ref k none h = cc
holds-answer ref k (some e) h = ap some (holds-value ref k e.ttl e.value h)

module _ (show_id : ℕ) (ref : String) (j : Key) (v : CacheValue) (other : v ≢ doc (text ref)) where
  pub held_by_other :
      (s : CacheStore) (x : Seat)
      → value_of (s j) ≡ some v
      → holds ref (read s show_id x) ≡ true
      → seat show_id x ≢ j
  held_by_other s x h e p =
      let q = holds-answer ref (seat show_id x) (s (seat show_id x)) e in
      other (cc (h, ap (λ k. value_of (s k)) p, q))

  -- The plan of a release, made of what the seat keys hold, spares the key of another owner.
  pub release_commands-Spares :
      (s : CacheStore) (hold_key : hold show_id ≢ j) (ss : List Seat)
      → value_of (s j) ≡ some v
      → All (SparesKey j) (release_commands show_id ref ss (map (read s show_id) ss)).0
  unfolding release_commands
  release_commands-Spares s hold_key [] h = tt
  release_commands-Spares s hold_key (x ∷ ss) h = elim (Bool-cases (holds ref (read s show_id x))) [
    | inl e ↦ rw e (held_by_other s x h e, (hold_key, release_commands-Spares s hold_key ss h))
    | inr e ↦ rw e (release_commands-Spares s hold_key ss h)
  ]

pub bump-Spares :
    (j : Key) (config : Config) (show_id : ℕ)
    → hold_rev show_id ≢ j
    → Sends (SparesKey j) (bump_hold_revision config show_id)
unfolding bump_hold_revision
bump-Spares j config show_id h =
    bind-Sends (SparesKey j) _ _ (incr-Sends (SparesKey j) (hold_rev show_id) h) λ v.
      if-Sends (SparesKey j) (config.seat_hold_ttl == 0) _ _ tt (
        bind-Sends (SparesKey j) _ _
          (expire-Sends (SparesKey j) (hold_rev show_id) config.seat_hold_ttl tt) (λ _. tt))

pub restore-Spares :
    (j : Key) (config : Config) (scan : Scan) (show_id n : ℕ)
    → remain show_id ≢ j
    → remain_dirty ≢ j
    → Sends (SparesKey j) (restore config scan show_id n)
unfolding restore
restore-Spares j config scan show_id zero h g = tt
restore-Spares j config scan show_id (suc n) h g =
    bind-Sends (SparesKey j) _ _ (adjust_remain-Spares j config scan show_id h g (pos (suc n)) 0)
      (λ _. tt)
