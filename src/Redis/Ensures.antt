-- ===== src/Redis/Ensures.antt =====
-- Programs that raise or end in a store that satisfies a relation, whatever requests fail.
use awstest.Prelude.{
  ◌||◌, if◌then◌else◌, sym, subst, ◌≡◌, ◌∙◌, true, false, [], ◌∷◌, Option, none, some,
}
use awstest.Redis.Commands.{nil, Store, Reply, Command, apply}
use awstest.Redis.Program.{ret, Faults, run, serve, pipeline, queue}
use awstest.Redis.Simulation.{run_store}
use awstest.Redis.Raising.{has_error, Raising, go_on, ◌>>=◌, command, raised, first, is_error_reply}
use awstest.Redis.Pipeline.{db-run-bind, result-run-bind}

module _ {K D M : Type 0} (key : Discrete K) (member : Discrete M) where
  abbrev pub Ensures : {A : Type 0} → (A → Store K D M → Type 0) → Raising K D M A → Type 0
  Ensures {A = A} Q m =
      (fs : Faults) (s : Store K D M) (a : A)
      → (run_store key member m fs s).result ≡ some a
      → Q a (run_store key member m fs s).db

  module _ {A B : Type 0} (Q : B → Store K D M → Type 0) (f : A → Raising K D M B) where
    pub go_on-Ensures : ((a : A) → Ensures Q (f a)) → (o : Option A) → Ensures Q (go_on f o)
    unfolding run
    go_on-Ensures h none fs s b e = cc
    go_on-Ensures h (some a) fs s b e = h a fs s b e

    pub bind-Ensures : (m : Raising K D M A) → ((a : A) → Ensures Q (f a)) → Ensures Q (m >>= f)
    bind-Ensures m h fs s b e =
        subst (Q b) (sym (db-run-bind key member (go_on f) m fs s))
          (go_on-Ensures h _ _ _ b (sym (result-run-bind key member (go_on f) m fs s) ∙ e))

  module _ {B : Type 0} (Q : B → Store K D M → Type 0) (b : B) where
    abbrev give : Option (Reply D M) → Raising K D M B
    give = go_on (λ _. ret (some b))

    given :
        (o : Option (Reply D M)) (fs : Faults) (s : Store K D M) (a : B)
        → Q b s
        → (run_store key member (give o) fs s).result ≡ some a
        → Q a (run_store key member (give o) fs s).db
    unfolding run
    given none fs s a q e = cc
    given (some r) fs s a q e = subst (λ x. Q x s) (same e) q
      where
        same : {x y : B} → some x ≡ some y → x ≡ y
        same p = cc

    -- A last command.
    pub command-Ensures :
        (c : Command K D M)
        → ((s : Store K D M) → Q b (apply key member c s).1)
        → Ensures Q (command c >>= λ _. ret (some b))
    unfolding command run serve pipeline queue first
    command-Ensures c h [] s a e =
        given (first (raised (some ((apply key member c s).0 ∷ [])))) [] _ a (h s) e
    command-Ensures c h (true ∷ fs) s a e = cc
    command-Ensures c h (false ∷ fs) s a e =
        given (first (raised (some ((apply key member c s).0 ∷ [])))) fs _ a (h s) e

    pub ok-Ensures : ((s : Store K D M) → Q b s) → Ensures Q (ret (some b))
    unfolding run
    ok-Ensures h fs s a e = given (some nil) fs s a (h s) e

  -- A first command whose reply is known.
  module _ {B : Type 0} (Q : B → Store K D M → Type 0) (c : Command K D M)
      (f : Reply D M → Raising K D M B) where
    abbrev EnsuresAt : Raising K D M B → Store K D M → Type 0
    EnsuresAt m s =
        (fs : Faults) (a : B)
        → (run_store key member m fs s).result ≡ some a
        → Q a (run_store key member m fs s).db

    pub command_known :
        (s : Store K D M)
        → is_error_reply (apply key member c s).0 ≡ false
        → EnsuresAt (f (apply key member c s).0) (apply key member c s).1
        → EnsuresAt (command c >>= f) s
    unfolding command run serve pipeline queue first raised has_error
    command_known s h g [] a e = known [] a e
      where
        known :
            EnsuresAt
              (go_on f (
                first (
                  if is_error_reply (apply key member c s).0 || false
                  then none
                  else some ((apply key member c s).0 ∷ []))))
              (apply key member c s).1
        known =
            subst
              (λ b.
                EnsuresAt
                  (go_on f
                    (first (if b || false then none else some ((apply key member c s).0 ∷ []))))
                  (apply key member c s).1)
              (sym h) g
    command_known s h g (true ∷ fs) a e = cc
    command_known s h g (false ∷ fs) a e = known fs a e
      where
        known :
            EnsuresAt
              (go_on f (
                first (
                  if is_error_reply (apply key member c s).0 || false
                  then none
                  else some ((apply key member c s).0 ∷ []))))
              (apply key member c s).1
        known =
            subst
              (λ b.
                EnsuresAt
                  (go_on f
                    (first (if b || false then none else some ((apply key member c s).0 ∷ []))))
                  (apply key member c s).1)
              (sym h) g
