-- ===== src/Redis/Returns.antt =====
-- Programs all of whose results satisfy a predicate, whatever the server answers.
use awstest.Prelude.{true, false, [], ◌∷◌, Option, none, some, List}
use awstest.Redis.Commands.{Reply}
use awstest.Redis.Program.{Client, ret, request, ◌>>=◌, Redis, Faults, serve, run}

module _ {K D M : Type 0} where
  abbrev pub Returns : {A : Type 0} → (A → Type 0) → Client K D M A → Type 0
  Returns P (ret a) = P a
  Returns P (request p k) = (rs : Option (List (Reply D M))) → Returns P (k rs)

  pub any-Returns : {A : Type 0} (m : Client K D M A) → Returns (λ _. Unit) m
  any-Returns (ret a) = tt
  any-Returns (request p k) = λ rs. any-Returns (k rs)

  pub bind-Returns :
      {A B : Type 0} (P : A → Type 0) (Q : B → Type 0) (m : Client K D M A) (f : A → Client K D M B)
      → Returns P m
      → ((a : A) → P a → Returns Q (f a))
      → Returns Q (m >>= f)
  bind-Returns P Q (ret a) f h g = g a h
  bind-Returns P Q (request p k) f h g = λ rs. bind-Returns P Q (k rs) f (h rs) g

module _ {K D M : Type 0} {key : Discrete K} {member : Discrete M} (r : Redis D key member) where
  pub run-Returns :
      {A : Type 0} (P : A → Type 0) (m : Client K D M A) (fs : Faults) (d : r.Db)
      → Returns P m
      → P (run r m fs d).result
  unfolding run
  run-Returns P (ret a) fs d h = h
  run-Returns P (request p k) [] d h = run-Returns P (k (some (serve r p d).0)) [] _ (h _)
  run-Returns P (request p k) (true ∷ fs) d h = run-Returns P (k none) fs d (h none)
  run-Returns P (request p k) (false ∷ fs) d h = run-Returns P (k (some (serve r p d).0)) fs _ (h _)
