-- ===== src/Redis/Raising/Getting.antt =====
-- Programs that never raise, whatever the server answers and whatever requests fail.
use awstest.Prelude.{◌≡◌, refl, sym, subst, Bool, true, false, Option, none, some, if◌then◌else◌}
use awstest.Redis.Commands.{Command}
use awstest.Redis.Program as Program
use awstest.Redis.Returns.{Returns, any-Returns, bind-Returns}
use awstest.Redis.Raising.{Raising, or_else, or_value, attempt, command, try_command, go_on, ◌>>=◌}

abbrev pub Gets : {A : Type 0} → Option A → Type 0
Gets {A} o = (a : A) × (o ≡ some a)

module _ {K D M A : Type 0} where
  pub or_else-Gets : (m : Raising K D M A) (a : A) → Returns Gets (or_else m a)
  or_else-Gets m a =
      bind-Returns (λ _. Unit) Gets m (λ o. Program.ret (or_value a o)) (any-Returns m)
        (λ o _. back o)
    where
      back : (o : Option A) → Gets (or_value a o)
      back none = (a, refl)
      back (some b) = (b, refl)

  pub bind-Gets :
      {B : Type 0} (m : Raising K D M B) (f : B → Raising K D M A)
      → Returns Gets m
      → ((b : B) → Returns Gets (f b))
      → Returns Gets (m >>= f)
  bind-Gets {B = B} m f h g =
      bind-Returns Gets Gets m (go_on f) h
        (λ o p. subst (λ x. Returns Gets (go_on f x)) (sym p.1) (g p.0))

  pub if-Gets :
      (b : Bool) (m n : Raising K D M A)
      → Returns Gets m
      → Returns Gets n
      → Returns Gets (if b then m else n)
  if-Gets true m n h g = h
  if-Gets false m n h g = g

  pub attempt-Gets : (m : Raising K D M A) → Returns Gets (attempt m)
  attempt-Gets m =
      bind-Returns (λ _. Unit) Gets m (λ o. Program.ret (some o)) (any-Returns m) (λ o _. (o, refl))

pub try_command-Gets :
    {K D M : Type 0} (c : Command K D M) → Returns {K = K} {D = D} {M = M} Gets (try_command c)
unfolding try_command
try_command-Gets c = or_else-Gets (command c >>= λ _. Program.ret (some tt)) tt
