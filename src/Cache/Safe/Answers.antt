-- ===== src/Cache/Safe/Answers.antt =====
-- A pipeline whose commands do not fail: its list of replies.
use awstest.Prelude.{◌≡◌, refl, ap, ◌∙◌, false, Option, List, [], ◌∷◌, All, if◌then◌else◌}
use awstest.Redis.Commands.{Store, Entry, answer, apply, target}
use awstest.Redis.Program.{run}
use awstest.Redis.Simulation.{run_store}
use awstest.Redis.Pipeline.{replies, after_all, pipeline-replies, pipeline-store}
use awstest.Cache.{Key, Doc, Member, Key-discrete, Member-discrete}
use awstest.Cache.Safe.{CacheCommand, is_error, any_error, replies_or_none, execute}

abbrev pub Succeeds : CacheCommand → Type 0
Succeeds c =
    (e : Option (Entry Doc Member)) → is_error (answer Key-discrete Member-discrete c e) ≡ false

any_error-replies :
    (cs : List CacheCommand) (s : Store Key Doc Member)
    → All Succeeds cs
    → any_error (replies Key-discrete Member-discrete cs s) ≡ false
unfolding replies any_error apply
any_error-replies [] s h = refl
any_error-replies (c ∷ cs) s h =
    rw (h.0 (s (target Key-discrete Member-discrete c))) (any_error-replies cs _ h.1)

pub result-execute :
    (cs : List CacheCommand) (s : Store Key Doc Member)
    → All Succeeds cs
    → (run_store Key-discrete Member-discrete (execute cs) [] s).result
      ≡ replies Key-discrete Member-discrete cs s
unfolding execute run replies_or_none
result-execute cs s h =
    ap (λ rs. if any_error rs then [] else rs) (pipeline-replies Key-discrete Member-discrete cs s)
    ∙ rw (any_error-replies cs s h) refl

pub db-execute :
    (cs : List CacheCommand) (s : Store Key Doc Member)
    → (run_store Key-discrete Member-discrete (execute cs) [] s).db
      ≡ after_all Key-discrete Member-discrete cs s
unfolding execute run
db-execute cs s = pipeline-store Key-discrete Member-discrete cs s
