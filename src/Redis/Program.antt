-- ===== src/Redis/Program.antt =====
-- Programs that send requests, the server that runs them, and the connection whose requests may fail.
use awstest.Prelude.{◌≡◌, Bool, true, false, Option, none, some, List, [], ◌∷◌, ◌++◌}
use awstest.Redis.Commands.{Store, Command, Reply, apply}

-- What the server runs as one request: a pipeline (redis-py sends it as MULTI/EXEC) or a Lua script.
pub data Script (K D M : Type 0) : Type 0 where
  done : List (Reply D M) → Script K D M
  call : Command K D M → (Reply D M → Script K D M) → Script K D M

-- `some` has the replies; `none` is an exception of the client library.
pub data Client (K D M A : Type 0) : Type 0 where
  ret : A → Client K D M A
  request : Script K D M → (Option (List (Reply D M)) → Client K D M A) → Client K D M A

module _ {K D M : Type 0} where
  unfoldable pub queue : List (Reply D M) → List (Command K D M) → Script K D M
  queue out [] = done out
  queue out (c ∷ cs) = call c (λ r. queue (out ++ r ∷ []) cs)

  unfoldable pub pipeline : List (Command K D M) → Script K D M
  unfolding queue
  pipeline cs = queue [] cs

  infixl 5 ◌>>=◌ ◌>>◌
  abbrev pub ◌>>=◌ : {A B : Type 0} → Client K D M A → (A → Client K D M B) → Client K D M B
  ret a >>= f = f a
  request p k >>= f = request p (λ r. k r >>= f)

  abbrev pub ◌>>◌ : {A B : Type 0} → Client K D M A → Client K D M B → Client K D M B
  m >> n = m >>= λ _. n

-- The server: what it stores, how it executes a command, and that this is as documented.
pub record Redis {K : Type 0} (D : Type 0) {M : Type 0} (key : Discrete K) (member : Discrete M)
    : Type 1 where
  pub Db : Type 0
  pub look : Db → Store K D M
  pub execute : Command K D M → Db → Reply D M × Db
  pub execute_reply :
      (c : Command K D M) (d : Db) → (execute c d).0 ≡ (apply key member c (look d)).0
  pub execute_store :
      (c : Command K D M) (d : Db) → look (execute c d).1 ≡ (apply key member c (look d)).1

-- The failures to come, one for each request: `true` fails it, and past the end none fails.
abbrev pub Faults : Type 0
Faults = List Bool

pub record Outcome (Db A : Type 0) : Type 0 where
  pub result : A
  pub faults : Faults
  pub db : Db

module _ {K D M : Type 0} {key : Discrete K} {member : Discrete M} (r : Redis D key member) where
  unfoldable pub serve : Script K D M → r.Db → List (Reply D M) × r.Db
  serve (done out) d = (out, d)
  serve (call c k) d = serve (k (r.execute c d).0) (r.execute c d).1

  unfoldable pub run : {A : Type 0} → Client K D M A → Faults → r.Db → Outcome r.Db A
  unfolding serve
  run (ret a) fs d = record { result = a; faults = fs; db = d }
  run (request p k) [] d = run (k (some (serve p d).0)) [] (serve p d).1
  run (request p k) (true ∷ fs) d = run (k none) fs d
  run (request p k) (false ∷ fs) d = run (k (some (serve p d).0)) fs (serve p d).1
