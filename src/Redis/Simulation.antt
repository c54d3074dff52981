-- ===== src/Redis/Simulation.antt =====
-- A server is as good as the documented one: a program has the same result on both, and leaves the
-- same keys. So a statement about `run_store` holds on every server.
use awstest.Prelude.{◌≡◌, refl, ap₂, ◌∙◌, true, false, List, [], ◌∷◌, some, none}
use awstest.Redis.Commands.{Store, Reply, apply}
use awstest.Redis.Program.{
  Script, done, call, Client, ret, request, Redis, Faults, Outcome, serve, run,
}

module _ {K D M : Type 0} (key : Discrete K) (member : Discrete M) where
  -- The server whose database is what it stores.
  abbrev pub documented : Redis D key member
  documented = record {
    Db = Store K D M;
    look = λ s. s;
    execute = apply key member;
    execute_reply = λ c d. refl;
    execute_store = λ c d. refl;
  }

  abbrev pub serve_store : Script K D M → Store K D M → List (Reply D M) × Store K D M
  serve_store = serve documented

  abbrev pub run_store :
      {A : Type 0} → Client K D M A → Faults → Store K D M → Outcome (Store K D M) A
  run_store = run documented

module _ {K D M : Type 0} {key : Discrete K} {member : Discrete M} (r : Redis D key member) where
  abbrev answers : Script K D M → Store K D M → List (Reply D M)
  answers p s = (serve_store key member p s).0

  abbrev leaves : Script K D M → Store K D M → Store K D M
  leaves p s = (serve_store key member p s).1

  serve-reply : (p : Script K D M) (d : r.Db) → (serve r p d).0 ≡ answers p (r.look d)
  unfolding serve
  serve-reply (done out) d = refl
  serve-reply (call c k) d =
      serve-reply (k (r.execute c d).0) (r.execute c d).1
      ∙ ap₂ (λ a s. answers (k a) s) (r.execute_reply c d) (r.execute_store c d)

  serve-store : (p : Script K D M) (d : r.Db) → r.look (serve r p d).1 ≡ leaves p (r.look d)
  unfolding serve
  serve-store (done out) d = refl
  serve-store (call c k) d =
      serve-store (k (r.execute c d).0) (r.execute c d).1
      ∙ ap₂ (λ a s. leaves (k a) s) (r.execute_reply c d) (r.execute_store c d)

  module _ {A : Type 0} where
    abbrev yields : Client K D M A → Faults → Store K D M → A
    yields m fs s = (run_store key member m fs s).result

    abbrev ends : Client K D M A → Faults → Store K D M → Store K D M
    ends m fs s = (run_store key member m fs s).db

    -- The result of a program does not depend on the server.
    pub result-run :
        (m : Client K D M A) (fs : Faults) (d : r.Db)
        → (run r m fs d).result ≡ yields m fs (r.look d)
    unfolding run
    result-run (ret a) fs d = refl
    result-run (request p k) [] d =
        result-run (k (some (serve r p d).0)) [] (serve r p d).1
        ∙ ap₂ (λ a s. yields (k (some a)) [] s) (serve-reply p d) (serve-store p d)
    result-run (request p k) (true ∷ fs) d = result-run (k none) fs d
    result-run (request p k) (false ∷ fs) d =
        result-run (k (some (serve r p d).0)) fs (serve r p d).1
        ∙ ap₂ (λ a s. yields (k (some a)) fs s) (serve-reply p d) (serve-store p d)

    -- Nor do the keys that it leaves.
    pub look-run :
        (m : Client K D M A) (fs : Faults) (d : r.Db)
        → r.look (run r m fs d).db ≡ ends m fs (r.look d)
    unfolding run
    look-run (ret a) fs d = refl
    look-run (request p k) [] d =
        look-run (k (some (serve r p d).0)) [] (serve r p d).1
        ∙ ap₂ (λ a s. ends (k (some a)) [] s) (serve-reply p d) (serve-store p d)
    look-run (request p k) (true ∷ fs) d = look-run (k none) fs d
    look-run (request p k) (false ∷ fs) d =
        look-run (k (some (serve r p d).0)) fs (serve r p d).1
        ∙ ap₂ (λ a s. ends (k (some a)) fs s) (serve-reply p d) (serve-store p d)

    -- Where no failure is to come, none is left.
    pub faults-run_none : (m : Client K D M A) (d : r.Db) → (run r m [] d).faults ≡ []
    unfolding run
    faults-run_none (ret a) d = refl
    faults-run_none (request p k) d = faults-run_none (k (some (serve r p d).0)) (serve r p d).1
