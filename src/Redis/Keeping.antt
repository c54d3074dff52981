-- ===== src/Redis/Keeping.antt =====
-- Programs that keep what a key holds, whatever requests fail; and a program that reads first, where
-- what it sends depends on what it has read.
use awstest.Prelude.{
  ◌≡◌, refl, ap, ◌∙◌, subst, sym, ◌⊎◌, inl, inr, Bool, true, false, Option, none, some, List, [],
  ◌∷◌, map, if◌then◌else◌,
}
use awstest.Redis.Commands.{Value, Store, Reply, get}
use awstest.Redis.Program.{Client, Faults, Outcome, run, ◌>>=◌}
use awstest.Redis.Simulation.{run_store}
use awstest.Redis.Pipeline.{pipeline-replies, pipeline-store, run-bind}
use awstest.Redis.Spares.{value_of, Spares, run-Spares}
use awstest.Redis.Sends.{Sends}
use awstest.Redis.Reading.{read, after_all-gets, replies-gets}
use awstest.Redis.Raising.{Raising, execute, raised, go_on}

module _ {K D M : Type 0} (key : Discrete K) (member : Discrete M) (j : K) (v : Value D M) where
  abbrev pub HasValue : Store K D M → Type 0
  HasValue s = value_of (s j) ≡ some v

  abbrev pub Keeps : {A : Type 0} → Client K D M A → Type 0
  Keeps m = (fs : Faults) (s : Store K D M) → HasValue s → HasValue (run_store key member m fs s).db

  pub Spares-Keeps : {A : Type 0} (m : Client K D M A) → Sends (Spares j) m → Keeps m
  Spares-Keeps m h fs s i = run-Spares key member j m fs s h ∙ i

  pub bind-Keeps :
      {A B : Type 0} (m : Client K D M A) (f : A → Client K D M B)
      → Keeps m
      → ((a : A) → Keeps (f a))
      → Keeps (m >>= f)
  bind-Keeps {A = A} {B = B} m f h g fs s i =
      subst (λ (o : Outcome (Store K D M) B). HasValue o.db) (sym (run-bind key member f m fs s))
        (g (run_store key member m fs s).result (run_store key member m fs s).faults
          (run_store key member m fs s).db (h fs s i))

module _ {K D M : Type 0} (key : Discrete K) (member : Discrete M) (ks : List K) where
  abbrev SeenOrNone : Store K D M → Option (List (Reply D M)) → Type 0
  SeenOrNone s o = (o ≡ none) ⊎ (o ≡ some (map (read key member s) ks))

  seen_if :
      (b : Bool) (s : Store K D M) (rs : List (Reply D M))
      → rs ≡ map (read key member s) ks
      → SeenOrNone s (if b then none else some rs)
  seen_if true s rs e = inl refl
  seen_if false s rs e = inr (ap some e)

  -- A pipeline of GET commands raises, or answers what the keys hold.
  pub gets_outcome :
      (fs : Faults) (s : Store K D M)
      → let o = run_store key member (execute (map get ks)) fs s in
        (o.db ≡ s) × ((o.result ≡ none) ⊎ (o.result ≡ some (map (read key member s) ks)))
  unfolding execute run raised
  gets_outcome [] s = (
    pipeline-store key member (map get ks) s ∙ after_all-gets key member ks s,
    seen_if _ s _ (pipeline-replies key member (map get ks) s ∙ replies-gets key member ks s),
  )
  gets_outcome (true ∷ fs) s = (refl, inl refl)
  gets_outcome (false ∷ fs) s = (
    pipeline-store key member (map get ks) s ∙ after_all-gets key member ks s,
    seen_if _ s _ (pipeline-replies key member (map get ks) s ∙ replies-gets key member ks s),
  )

  -- What goes on after reading keeps a key, if it does so with what the keys hold.
  pub gets-Keeps :
      {A : Type 0} (j : K) (v : Value D M) (f : List (Reply D M) → Raising K D M A)
      → ((s : Store K D M)
          → HasValue key member j v s
          → Keeps key member j v (f (map (read key member s) ks)))
      → Keeps key member j v (execute (map get ks) >>= go_on f)
  unfolding run
  gets-Keeps {A = A} j v f h fs s i =
      subst (λ (o : Outcome (Store K D M) (Option A)). HasValue key member j v o.db)
        (sym (run-bind key member (go_on f) (execute (map get ks)) fs s))
        (go (run_store key member (execute (map get ks)) fs s) (gets_outcome fs s))
    where
      go :
          (o : Outcome (Store K D M) (Option (List (Reply D M))))
          → (o.db ≡ s) × ((o.result ≡ none) ⊎ (o.result ≡ some (map (read key member s) ks)))
          → HasValue key member j v (run_store key member (go_on f o.result) o.faults o.db).db
      go o (e, inl p) = rw (p, e) i
      go o (e, inr p) = rw (p, e) (h s i o.faults s i)
