-- ===== src/Booking/Contract.antt =====
-- What the worker stores is what the write API answers.
use awstest.Prelude.{ℕ, String, ◌≡◌, refl, sym, ap, ◌∙◌, Bool, true, Option, some, []}
use awstest.Redis.Commands.{doc, get, apply}
use awstest.Redis.Program.{Faults, Outcome, run}
use awstest.Redis.Simulation.{result-run, look-run}
use awstest.Redis.Spares.{value_of}
use awstest.Redis.Reading.{get-reply}
use awstest.Redis.Raising.{go_on, is_error_reply}
use awstest.Redis.Raising.Runs.{command-runs}
use awstest.Redis.Pipeline.{run-bind}
use awstest.Booking.{
  BookingType, result, Verdict, verdict_doc, DeskStore, DeskServer, on_desk, Settings, Key-discrete,
  Member-discrete,
}
use awstest.Booking.Results.{store_result}
use awstest.Booking.Results.Stored.{stored_run}
use awstest.Booking.Queue.{Status, final, get_booking_result, answer_from, get_booking_status}

module _ (valid : String → Bool) (recovered : Option Verdict) (ref : String) (v : Verdict) where
  abbrev after_get : DeskStore → DeskStore
  after_get s = (apply Key-discrete Member-discrete (get (result ref)) s).1

  result_run :
      (s : DeskStore)
      → value_of (s (result ref)) ≡ some (doc (verdict_doc v))
      → on_desk (get_booking_result ref) [] s
        ≡ record { result = some (some v); faults = []; db = after_get s }
  unfolding get_booking_result run
  result_run s h =
      let reply =
        get-reply Key-discrete Member-discrete (result ref) s (doc (verdict_doc v)) tt h in
      command-runs Key-discrete Member-discrete (get (result ref)) _ s (ap is_error_reply reply)
      ∙ rw reply refl

  polled_run :
      (s : DeskStore)
      → valid ref ≡ true
      → value_of (s (result ref)) ≡ some (doc (verdict_doc v))
      → (on_desk (get_booking_status valid recovered ref) [] s).result ≡ some (final v)
  unfolding get_booking_status run answer_from
  polled_run s e h = rw e (
      ap (λ (o : Outcome DeskStore (Option Status)). o.result)
        (run-bind Key-discrete Member-discrete (go_on (answer_from recovered ref))
          (get_booking_result ref) [] s)
      ∙ ap
          (λ (o : Outcome DeskStore (Option (Option Verdict))).
            (on_desk (go_on (answer_from recovered ref) o.result) o.faults o.db).result)
          (result_run s h))

  -- If store_result returns (whatever requests fail), then polling the status of the reference, which is a UUID, with no
  -- failure answers the verdict that was stored.
  pub status-store_result :
      (r : DeskServer) (settings : Settings) (t : Option BookingType) (entity_id : ℕ) (fs : Faults)
      (d : r.Db)
      → valid ref ≡ true
      → let o = run r (store_result settings ref v t entity_id) fs d in
        o.result ≡ some tt
        → (run r (get_booking_status valid recovered ref) [] o.db).result ≡ some (final v)
  status-store_result r settings t entity_id fs d e h =
      let m = store_result settings ref v t entity_id in
      let poll = get_booking_status valid recovered ref in
      result-run r poll [] (run r m fs d).db
      ∙ ap (λ s. (on_desk poll [] s).result) (look-run r m fs d)
      ∙ polled_run (on_desk m fs (r.look d)).db e
          (stored_run settings ref v t entity_id fs (r.look d) (sym (result-run r m fs d) ∙ h))
