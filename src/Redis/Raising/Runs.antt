-- ===== src/Redis/Raising/Runs.antt =====
-- One step of a program that raises, when no request fails and no reply is an error.
use awstest.Prelude.{
  ℕ, arith, ◌≡◌, refl, ap, ap₂, ◌∙◌, Bool, false, Option, none, some, List, [], ◌∷◌, All,
  if◌then◌else◌, ◌||◌,
}
use awstest.Redis.Commands.{Value, set, expire, Store, Command, Reply, apply, answer, target, Entry}
use awstest.Redis.Program.{run, serve, pipeline, queue}
use awstest.Redis.Simulation.{run_store}
use awstest.Redis.Pipeline.{replies, after_all, pipeline-replies, pipeline-store}
use awstest.Redis.Raising.{
  Raising, is_error_reply, has_error, raised, first, execute, command, go_on, ◌>>=◌,
}

module _ {K D M : Type 0} (key : Discrete K) (member : Discrete M) where
  -- The command's reply is no error, whatever its key holds.
  abbrev pub Succeeds : Command K D M → Type 0
  Succeeds c = (e : Option (Entry D M)) → is_error_reply (answer key member c e) ≡ false

  pub set-Succeeds : (k : K) (v : Value D M) (nx : Bool) (ex : Option ℕ) → Succeeds (set k v nx ex)
  unfolding answer
  set-Succeeds k v nx ex e = ground arith

  pub expire-Succeeds : (k : K) (ttl : ℕ) → Succeeds (expire k ttl)
  unfolding answer
  expire-Succeeds k ttl e = refl

  has_error-replies :
      (cs : List (Command K D M)) (s : Store K D M)
      → All Succeeds cs
      → has_error (replies key member cs s) ≡ false
  unfolding replies has_error apply
  has_error-replies [] s h = refl
  has_error-replies (c ∷ cs) s h = rw (h.0 (s (target key member c))) (has_error-replies cs _ h.1)

  module _ {A : Type 0} where
    pub command-runs :
        (c : Command K D M) (f : Reply D M → Raising K D M A) (s : Store K D M)
        → is_error_reply (apply key member c s).0 ≡ false
        → run_store key member (command c >>= f) [] s
          ≡ run_store key member (f (apply key member c s).0) [] (apply key member c s).1
    unfolding command run raised has_error first serve pipeline queue
    command-runs c f s h =
        ap
          (λ b.
            run_store key member
              (go_on f (first (if b || false then none else some ((apply key member c s).0 ∷ []))))
              [] (apply key member c s).1)
          h

    pub execute-runs :
        (cs : List (Command K D M)) (f : List (Reply D M) → Raising K D M A) (s : Store K D M)
        → has_error (replies key member cs s) ≡ false
        → run_store key member (execute cs >>= f) [] s
          ≡ run_store key member (f (replies key member cs s)) [] (after_all key member cs s)
    unfolding execute run raised
    execute-runs cs f s h =
        ap₂ (λ rs u. run_store key member (go_on f (raised (some rs))) [] u)
          (pipeline-replies key member cs s) (pipeline-store key member cs s)
        ∙ rw h refl

    pub execute-Succeeds :
        (cs : List (Command K D M)) (f : List (Reply D M) → Raising K D M A) (s : Store K D M)
        → All Succeeds cs
        → run_store key member (execute cs >>= f) [] s
          ≡ run_store key member (f (replies key member cs s)) [] (after_all key member cs s)
    execute-Succeeds cs f s h = execute-runs cs f s (has_error-replies cs s h)
