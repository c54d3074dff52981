-- ===== src/Redis/Pipeline.antt =====
-- What a pipeline answers and leaves: one command after the other.
use mathlib.Core.List.{append_assoc, append-nil}
use awstest.Prelude.{
  ◌≡◌, refl, sym, ◌∙◌, ◌≢◌, true, false, List, [], ◌∷◌, ◌++◌, All, if_neg, if_pos, none,
}
use awstest.Redis.Commands.{Store, Command, Reply, apply, target, after, update}
use awstest.Redis.Program.{queue, pipeline, Client, ret, request, ◌>>=◌, Faults, serve, run}
use awstest.Redis.Simulation.{serve_store, run_store}

module _ {K D M : Type 0} (key : Discrete K) (member : Discrete M) where
  unfoldable pub replies : List (Command K D M) → Store K D M → List (Reply D M)
  replies [] s = []
  replies (c ∷ cs) s = (apply key member c s).0 ∷ replies cs (apply key member c s).1

  unfoldable pub after_all : List (Command K D M) → Store K D M → Store K D M
  after_all [] s = s
  after_all (c ∷ cs) s = after_all cs (apply key member c s).1

  queue-replies :
      (out : List (Reply D M)) (cs : List (Command K D M)) (s : Store K D M)
      → (serve_store key member (queue out cs) s).0 ≡ out ++ replies cs s
  unfolding queue serve replies
  queue-replies out [] s = sym (append-nil out)
  queue-replies out (c ∷ cs) s =
      queue-replies (out ++ (apply key member c s).0 ∷ []) cs (apply key member c s).1
      ∙ append_assoc out _ _

  queue-store :
      (out : List (Reply D M)) (cs : List (Command K D M)) (s : Store K D M)
      → (serve_store key member (queue out cs) s).1 ≡ after_all cs s
  unfolding queue serve after_all
  queue-store out [] s = refl
  queue-store out (c ∷ cs) s =
      queue-store (out ++ (apply key member c s).0 ∷ []) cs (apply key member c s).1

  pub pipeline-replies :
      (cs : List (Command K D M)) (s : Store K D M)
      → (serve_store key member (pipeline cs) s).0 ≡ replies cs s
  unfolding pipeline
  pipeline-replies cs s = queue-replies [] cs s

  pub pipeline-store :
      (cs : List (Command K D M)) (s : Store K D M)
      → (serve_store key member (pipeline cs) s).1 ≡ after_all cs s
  unfolding pipeline
  pipeline-store cs s = queue-store [] cs s

  -- A command leaves the keys that it does not name.
  pub apply_other :
      (c : Command K D M) (s : Store K D M) (j : K)
      → target key member c ≢ j
      → (apply key member c s).1 j ≡ s j
  unfolding apply
  apply_other c s j h = if_neg (key (target key member c) j) h _ _

  pub after_all_other :
      (cs : List (Command K D M)) (s : Store K D M) (j : K)
      → All (λ c. target key member c ≢ j) cs
      → after_all cs s j ≡ s j
  unfolding after_all
  after_all_other [] s j h = refl
  after_all_other (c ∷ cs) s j h = after_all_other cs _ j h.1 ∙ apply_other c s j h.0

  pub after_all-append :
      (cs ds : List (Command K D M)) (s : Store K D M)
      → after_all (cs ++ ds) s ≡ after_all ds (after_all cs s)
  unfolding after_all
  after_all-append [] ds s = refl
  after_all-append (c ∷ cs) ds s = after_all-append cs ds _

  -- A program that goes on with another.
  module _ {A B : Type 0} (f : A → Client K D M B) where
    pub result-run-bind :
        (m : Client K D M A) (fs : Faults) (s : Store K D M)
        → let o = run_store key member m fs s in
          (run_store key member (m >>= f) fs s).result
          ≡ (run_store key member (f o.result) o.faults o.db).result
    unfolding run
    result-run-bind (ret a) fs s = refl
    result-run-bind (request p k) [] s = result-run-bind (k _) [] _
    result-run-bind (request p k) (true ∷ fs) s = result-run-bind (k none) fs s
    result-run-bind (request p k) (false ∷ fs) s = result-run-bind (k _) fs _

    pub db-run-bind :
        (m : Client K D M A) (fs : Faults) (s : Store K D M)
        → let o = run_store key member m fs s in
          (run_store key member (m >>= f) fs s).db
          ≡ (run_store key member (f o.result) o.faults o.db).db
    unfolding run
    db-run-bind (ret a) fs s = refl
    db-run-bind (request p k) [] s = db-run-bind (k _) [] _
    db-run-bind (request p k) (true ∷ fs) s = db-run-bind (k none) fs s
    db-run-bind (request p k) (false ∷ fs) s = db-run-bind (k _) fs _

    pub run-bind :
        (m : Client K D M A) (fs : Faults) (s : Store K D M)
        → let o = run_store key member m fs s in
          run_store key member (m >>= f) fs s ≡ run_store key member (f o.result) o.faults o.db
    unfolding run
    run-bind (ret a) fs s = refl
    run-bind (request p k) [] s = run-bind (k _) [] _
    run-bind (request p k) (true ∷ fs) s = run-bind (k none) fs s
    run-bind (request p k) (false ∷ fs) s = run-bind (k _) fs _

  pub no-faults-run :
      {A : Type 0} (m : Client K D M A) (s : Store K D M)
      → (run_store key member m [] s).faults ≡ []
  unfolding run
  no-faults-run (ret a) s = refl
  no-faults-run (request p k) s = no-faults-run (k _) _

  -- The key that it names gets what the command makes of it.
  pub apply_same :
      (c : Command K D M) (s : Store K D M)
      → (apply key member c s).1 (target key member c)
        ≡ after key member c (s (target key member c))
  unfolding apply update
  apply_same c s = if_pos (key (target key member c) (target key member c)) refl _ _

  pub result-ends :
      {A B C : Type 0} (m : Client K D M A) (n : Client K D M B) (v : C) (fs : Faults)
      (s : Store K D M)
      → (run_store key member (m >>= λ _. n >>= λ _. ret v) fs s).result ≡ v
  unfolding run
  result-ends m n v fs s =
      result-run-bind (λ _. n >>= λ _. ret v) m fs s ∙ result-run-bind (λ _. ret v) n _ _
