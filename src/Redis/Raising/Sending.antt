-- ===== src/Redis/Raising/Sending.antt =====
-- What a program that raises may send.
use awstest.Prelude.{Option, none, some}
use awstest.Redis.Commands.{Command}
use awstest.Redis.Program as Program
use awstest.Redis.Raising.{Raising, go_on, or_value, or_else, command, try_command, ◌>>=◌}
use awstest.Redis.Sends.{Sends, bind-Sends}

module _ {K D M : Type 0} (Q : Command K D M → Type 0) where
  pub command-Sends : (c : Command K D M) → Q c → Sends Q (command c)
  unfolding command
  command-Sends c h = ((h, λ r. tt), λ r. tt)

  pub then-Sends :
      {A B : Type 0} (m : Raising K D M A) (f : A → Raising K D M B)
      → Sends Q m
      → ((a : A) → Sends Q (f a))
      → Sends Q (m >>= f)
  then-Sends {A = A} m f h g = bind-Sends Q m (go_on f) h after
    where
      after : (o : Option A) → Sends Q (go_on f o)
      after none = tt
      after (some a) = g a

  pub or_else-Sends : {A : Type 0} (m : Raising K D M A) (a : A) → Sends Q m → Sends Q (or_else m a)
  or_else-Sends {A = A} m a h = bind-Sends Q m (λ o. Program.ret (or_value a o)) h (λ o. tt)

  pub try_command-Sends : (c : Command K D M) → Q c → Sends Q (try_command c)
  unfolding try_command
  try_command-Sends c h =
      or_else-Sends (command c >>= λ _. Program.ret (some tt)) tt
        (then-Sends (command c) (λ _. Program.ret (some tt)) (command-Sends c h) (λ _. tt))
