-- ===== src/Booking/Results/Returning.antt =====
-- `store_failure_result` returns, if no request fails.
use awstest.Prelude.{
  ℕ, String, ◌≡◌, refl, ap, ap₂, ◌∙◌, Bool, true, false, Option, some, [], if◌then◌else◌,
}
use awstest.Redis.Commands.{get}
use awstest.Redis.Program.{Outcome}
use awstest.Redis.Returns.{run-Returns}
use awstest.Redis.Pipeline.{run-bind, no-faults-run}
use awstest.Redis.Simulation.{documented}
use awstest.Redis.Raising.{or_else, command, ok, go_on, ◌>>=◌}
use awstest.Redis.Raising.Getting.{Gets, or_else-Gets}
use awstest.Booking.{
  result, Verdict, DeskStore, on_desk, Settings, BookingType, Key-discrete, Member-discrete,
}
use awstest.Booking.Results.{is_ok, unless_kept, store_result, store_failure_result}
use awstest.Booking.Results.Stored.{returns_run}

pub store_failure-returns :
    (settings : Settings) (ref : String) (v : Verdict) (t : Option BookingType) (entity_id : ℕ)
    (s : DeskStore)
    → (on_desk (store_failure_result settings ref v t entity_id) [] s).result ≡ some tt
unfolding store_failure_result unless_kept
store_failure-returns settings ref v t entity_id s =
    let look = or_else (command (get (result ref)) >>= λ raw. ok (is_ok raw)) false in
    let kept =
      run-Returns (documented Key-discrete Member-discrete) Gets look [] s
        (or_else-Gets (command (get (result ref)) >>= λ raw. ok (is_ok raw)) false) in
    ap (λ (o : Outcome DeskStore (Option (Unit {0}))). o.result)
      (run-bind Key-discrete Member-discrete (go_on (unless_kept settings ref v t entity_id)) look
        [] s)
    ∙ ap₂
        (λ o fs.
          (on_desk (go_on (unless_kept settings ref v t entity_id) o) fs
            (on_desk look [] s).db).result)
        kept.1 (no-faults-run Key-discrete Member-discrete look s)
    ∙ stored kept.0 (on_desk look [] s).db
  where
    stored :
        (b : Bool) (u : DeskStore)
        → (on_desk (if b then ok tt else store_result settings ref v t entity_id) [] u).result
          ≡ some tt
    stored true u =
        run-Returns (documented Key-discrete Member-discrete) (λ o. o ≡ some tt) (ok tt) [] u refl
    stored false u = returns_run settings ref v t entity_id u
