-- ===== src/Worker/Theater/Reports.antt =====
-- What a theater booking reports, when the first store of its result fails.
use awstest.Prelude.{ℕ, String, ◌≡◌, refl, ap, ◌∙◌, true, false, some, [], ◌∷◌}
use awstest.Redis.Commands.{doc}
use awstest.Redis.Program.{Faults, run, serve}
use awstest.Redis.Simulation.{look-run}
use awstest.Redis.Spares.{value_of}
use awstest.Redis.Raising.{command, raised, first}
use awstest.Booking.{
  theater, Booked, Verdict, booked, failed, result, verdict_doc, DeskStore, DeskServer, on_desk,
  Settings,
}
use awstest.Booking.Results.{store_result}
use awstest.Booking.Results.Stored.{stored_run, returns_run}
use awstest.Worker.Tables.{Tables, done}
use awstest.Worker.Theater.{
  Request, Assigned, reserved, transaction, store, report_in_try, committed, ended,
  process_theater_booking,
}

-- The next statement, COMMIT, does not fail.
abbrev pub Commits : Faults → Type 0
Commits [] = Unit
Commits (b ∷ fs) = b ≡ false

module _ (settings : Settings) (q : Request) (message : String) where
  error_stored :
      (v : Verdict) (s : DeskStore)
      → value_of
          ((on_desk (report_in_try settings q message v) (true ∷ []) s).db (result q.booking_ref))
        ≡ some (doc (verdict_doc (failed "ERROR" message)))
  unfolding report_in_try store store_result command run serve raised first
  error_stored v s =
      stored_run settings q.booking_ref (failed "ERROR" message) (some theater) q.schedule_id [] s
        (returns_run settings q.booking_ref (failed "ERROR" message) (some theater) q.schedule_id s)

  committed_after :
      (before after : Tables) (b : Booked) (n : ℕ) (rest : Faults)
      → Commits rest
      → committed settings q message before after b n rest ≡ record {
        tables = after;
        report = report_in_try settings q message (booked b);
        stale = some n;
      }
  unfolding committed
  committed_after before after b n [] h = refl
  committed_after before after b n (true ∷ rest) h = absurd (no_failure h)
    where
      no_failure : true ≡ false → ⊥
      no_failure p = cc
  committed_after before after b n (false ∷ rest) h = refl

  -- If the transaction reserves the seats and COMMIT does not fail, but the first request that stores the result fails
  -- and no other, the tables have the booking and the result that is stored is ERROR.
  pub theater-reports_error :
      (r : DeskServer) (d : r.Db) (new : Assigned) (fs : Faults) (t after : Tables) (b : Booked)
      (n : ℕ) (rest : Faults)
      → transaction q new t fs ≡ done (reserved b n) after rest
      → Commits rest
      → let p = process_theater_booking settings q new message fs t in
        (p.tables ≡ after)
        × (value_of (r.look (run r p.report (true ∷ []) d).db (result q.booking_ref))
            ≡ some (doc (verdict_doc (failed "ERROR" message))))
  unfolding process_theater_booking ended
  theater-reports_error r d new fs t after b n rest e c = (
    ap (λ p. p.tables) same,
    ap (λ s. value_of (s (result q.booking_ref)))
          (look-run r (process_theater_booking settings q new message fs t).report (true ∷ []) d)
        ∙ ap (λ p. value_of ((on_desk p.report (true ∷ []) (r.look d)).db (result q.booking_ref)))
            same
        ∙ error_stored (booked b) (r.look d),
  )
    where
      same : process_theater_booking settings q new message fs t ≡ record {
        tables = after;
        report = report_in_try settings q message (booked b);
        stale = some n;
      }
      same = ap (ended settings q message t) e ∙ committed_after t after b n rest c
