-- ===== src/Redis/Raising.antt =====
-- Programs that raise: redis-py as it is, a failed request or an error reply raises, and `none` is the
-- exception on its way up. `or_else` is a try statement with a value for the except branch.
pub mod Runs
pub mod Sending
pub mod Getting
use awstest.Prelude.{Bool, true, false, ◌||◌, Option, none, some, List, [], ◌∷◌, if◌then◌else◌}
use awstest.Redis.Commands.{Command, Reply, nil, value, integer, flag, items, wrong_type}
use awstest.Redis.Program.{Client, ret, request, pipeline}
use awstest.Redis.Program as Program

module _ {D M : Type 0} where
  abbrev pub is_error_reply : Reply D M → Bool
  is_error_reply wrong_type = true
  is_error_reply nil = false
  is_error_reply (value v) = false
  is_error_reply (integer n) = false
  is_error_reply (flag b) = false
  is_error_reply (items ms) = false

  unfoldable pub has_error : List (Reply D M) → Bool
  has_error [] = false
  has_error (r ∷ rs) = is_error_reply r || has_error rs

  -- execute() of a redis-py pipeline
  unfoldable pub raised : Option (List (Reply D M)) → Option (List (Reply D M))
  unfolding has_error
  raised none = none
  raised (some rs) = if has_error rs then none else some rs

  unfoldable pub first : Option (List (Reply D M)) → Option (Reply D M)
  first none = none
  first (some []) = none
  first (some (r ∷ rs)) = some r

abbrev pub Raising : Type 0 → Type 0 → Type 0 → Type 0 → Type 0
Raising K D M A = Client K D M (Option A)

abbrev pub or_value : {A : Type 0} → A → Option A → Option A
or_value a none = some a
or_value a (some b) = some b

module _ {K D M : Type 0} where
  abbrev pub ok : {A : Type 0} → A → Raising K D M A
  ok a = ret (some a)

  abbrev pub raise : {A : Type 0} → Raising K D M A
  raise = ret none

  abbrev pub go_on : {A B : Type 0} → (A → Raising K D M B) → Option A → Raising K D M B
  go_on f none = ret none
  go_on f (some a) = f a

  infixl 5 ◌>>=◌ ◌>>◌
  abbrev pub ◌>>=◌ : {A B : Type 0} → Raising K D M A → (A → Raising K D M B) → Raising K D M B
  m >>= f = Program.◌>>=◌ m (go_on f)

  abbrev pub ◌>>◌ : {A B : Type 0} → Raising K D M A → Raising K D M B → Raising K D M B
  m >> n = m >>= λ _. n

  abbrev pub or_else : {A : Type 0} → Raising K D M A → A → Raising K D M A
  or_else m a = Program.◌>>=◌ m (λ o. ret (or_value a o))

  -- a try statement whose except branch goes on with a program
  abbrev pub rescue : {A : Type 0} → Raising K D M A → Raising K D M A → Raising K D M A
  rescue m n = Program.◌>>=◌ m (λ o. elim o [ none ↦ n | some a ↦ ok a ])

  unfoldable pub execute : List (Command K D M) → Raising K D M (List (Reply D M))
  unfolding raised pipeline
  execute cs = request (pipeline cs) (λ rs. ret (raised rs))

  unfoldable pub command : Command K D M → Raising K D M (Reply D M)
  unfolding raised first pipeline
  command c = request (pipeline (c ∷ [])) (λ rs. ret (first (raised rs)))

  -- a command whose exception and reply are of no interest
  unfoldable pub try_command : Command K D M → Raising K D M (Unit {0})
  unfolding command
  try_command c = or_else (command c >> ok tt) tt

  -- a try statement that goes on differently after an exception
  abbrev pub attempt : {A : Type 0} → Raising K D M A → Raising K D M (Option A)
  attempt m = Program.◌>>=◌ m (λ o. ret (some o))
