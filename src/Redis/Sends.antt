-- ===== src/Redis/Sends.antt =====
-- A program all of whose commands keep a predicate keeps it, whichever of its requests fail.
use awstest.Prelude.{Bool, if◌then◌else◌, true, false, List, [], ◌∷◌, ◌++◌, All, Option, none}
use awstest.Redis.Commands.{Store, Command, Reply, apply}
use awstest.Redis.Program.{
  Script, done, call, queue, pipeline, Client, ret, request, ◌>>=◌, Faults, serve, run,
}
use awstest.Redis.Simulation.{serve_store, run_store}

module _ {K D M : Type 0} (Q : Command K D M → Type 0) where
  abbrev pub ScriptSends : Script K D M → Type 0
  ScriptSends (done out) = Unit
  ScriptSends (call c k) = Q c × ((r : Reply D M) → ScriptSends (k r))

  abbrev pub Sends : {A : Type 0} → Client K D M A → Type 0
  Sends (ret a) = Unit
  Sends (request p k) = ScriptSends p × ((r : Option (List (Reply D M))) → Sends (k r))

  queue-Sends :
      (out : List (Reply D M)) (cs : List (Command K D M)) → All Q cs → ScriptSends (queue out cs)
  unfolding queue
  queue-Sends out [] h = tt
  queue-Sends out (c ∷ cs) h = (h.0, λ r. queue-Sends (out ++ r ∷ []) cs h.1)

  pub pipeline-Sends : (cs : List (Command K D M)) → All Q cs → ScriptSends (pipeline cs)
  unfolding pipeline
  pipeline-Sends cs h = queue-Sends [] cs h

  pub bind-Sends :
      {A B : Type 0} (m : Client K D M A) (f : A → Client K D M B)
      → Sends m
      → ((a : A) → Sends (f a))
      → Sends (m >>= f)
  bind-Sends (ret a) f h g = g a
  bind-Sends (request p k) f h g = (h.0, λ r. bind-Sends (k r) f (h.1 r) g)

  pub if-ScriptSends :
      (b : Bool) (p q : Script K D M)
      → ScriptSends p
      → ScriptSends q
      → ScriptSends (if b then p else q)
  if-ScriptSends true p q h g = h
  if-ScriptSends false p q h g = g

  pub if-Sends :
      {A : Type 0} (b : Bool) (m n : Client K D M A)
      → Sends m
      → Sends n
      → Sends (if b then m else n)
  if-Sends true m n h g = h
  if-Sends false m n h g = g

  pub elim-Sends :
      {A : Type 0} (b : Bool) (m n : Client K D M A)
      → Sends m
      → Sends n
      → Sends (elim b [ true ↦ m | false ↦ n ])
  elim-Sends true m n h g = h
  elim-Sends false m n h g = g

module _ {K D M : Type 0} {Q : Command K D M → Type 0} (key : Discrete K) (member : Discrete M)
    (P : Store K D M → Type 0)
    (keep : (c : Command K D M) (s : Store K D M) → Q c → P s → P (apply key member c s).1) where
  pub serve-keeps :
      (p : Script K D M) (s : Store K D M)
      → ScriptSends Q p
      → P s
      → P (serve_store key member p s).1
  unfolding serve
  serve-keeps (done out) s h i = i
  serve-keeps (call c k) s h i = serve-keeps (k _) _ (h.1 _) (keep c s h.0 i)

  pub run-keeps :
      {A : Type 0} (m : Client K D M A) (fs : Faults) (s : Store K D M)
      → Sends Q m
      → P s
      → P (run_store key member m fs s).db
  unfolding run
  run-keeps (ret a) fs s h i = i
  run-keeps (request p k) [] s h i = run-keeps (k _) [] _ (h.1 _) (serve-keeps p s h.0 i)
  run-keeps (request p k) (true ∷ fs) s h i = run-keeps (k none) fs s (h.1 none) i
  run-keeps (request p k) (false ∷ fs) s h i = run-keeps (k _) fs _ (h.1 _) (serve-keeps p s h.0 i)
