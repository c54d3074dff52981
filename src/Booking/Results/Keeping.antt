-- ===== src/Booking/Results/Keeping.antt =====
-- What `store_failure_result` does to a result that is there.
use awstest.Prelude.{ℕ, String, ◌≡◌, ap, ap₂, ◌∙◌, true, false, Option, some, [], ◌∷◌}
use awstest.Redis.Commands.{doc, get, apply}
use awstest.Redis.Program.{Faults, run, serve, pipeline, queue}
use awstest.Redis.Simulation.{look-run}
use awstest.Redis.Spares.{value_of, apply-get}
use awstest.Redis.Reading.{get-reply}
use awstest.Redis.Raising.{ok, or_else, go_on, ◌>>=◌, command, raised, has_error, first}
use awstest.Booking.{
  DeskReply, BookingType, result, Booked, Verdict, booked, verdict_doc, Desk, DeskStore, DeskServer,
  on_desk, Settings, Key-discrete, Member-discrete,
}
use awstest.Booking.Results.Stored.{stored_run, returns_run}
use awstest.Booking.Results.{is_ok, unless_kept, store_failure_result}

module _ (settings : Settings) (ref : String) (v : Verdict) (t : Option BookingType)
    (entity_id : ℕ) where
  abbrev fails : Desk (Unit {0})
  fails = store_failure_result settings ref v t entity_id

  abbrev goes_on : Option DeskReply → Desk (Unit {0})
  goes_on o = do
    kept ← or_else (go_on (λ raw. ok (is_ok raw)) o) false
    unless_kept settings ref v t entity_id kept

  -- The first request is served, and the result is OK.
  kept_step :
      (b : Booked) (fs : Faults) (s : DeskStore)
      → value_of (s (result ref)) ≡ some (doc (verdict_doc (booked b)))
      → (on_desk
          (goes_on (
            first
              (raised (some ((apply Key-discrete Member-discrete (get (result ref)) s).0 ∷ [])))))
          fs
          (apply Key-discrete Member-discrete (get (result ref)) s).1).db
        ≡ s
  unfolding run raised has_error first unless_kept
  kept_step b fs s h =
      ap₂ (λ r u. (on_desk (goes_on (first (raised (some (r ∷ []))))) fs u).db)
        (get-reply Key-discrete Member-discrete (result ref) s (doc (verdict_doc (booked b))) tt h)
        (apply-get Key-discrete Member-discrete (result ref) s)

  -- The first request is served.
  abbrev Served : Faults → Type 0
  Served [] = Unit
  Served (b ∷ fs) = b ≡ false

  kept_run :
      (b : Booked) (fs : Faults) (s : DeskStore)
      → Served fs
      → value_of (s (result ref)) ≡ some (doc (verdict_doc (booked b)))
      → (on_desk fails fs s).db ≡ s
  unfolding store_failure_result command run serve pipeline queue
  kept_run b [] s p h = kept_step b [] s h
  kept_run b (true ∷ fs) s p h = absurd (no_failure p)
    where
      no_failure : true ≡ false → ⊥
      no_failure q = cc
  kept_run b (false ∷ fs) s p h = kept_step b fs s h

  -- A failed first request: what is there is overwritten.
  overwritten_run :
      (s : DeskStore)
      → value_of ((on_desk fails (true ∷ []) s).db (result ref)) ≡ some (doc (verdict_doc v))
  unfolding store_failure_result command unless_kept run raised first
  overwritten_run s =
      stored_run settings ref v t entity_id [] s (returns_run settings ref v t entity_id s)

  module _ (r : DeskServer) (d : r.Db) where
    -- If the first request is served, store_failure_result leaves an OK result, and every other key.
    pub store_failure-keeps_ok :
        (b : Booked) (fs : Faults)
        → Served fs
        → value_of (r.look d (result ref)) ≡ some (doc (verdict_doc (booked b)))
        → r.look (run r fails fs d).db ≡ r.look d
    store_failure-keeps_ok b fs p h = look-run r fails fs d ∙ kept_run b fs (r.look d) p h

    -- If the first request fails and no other, store_failure_result stores the failure, whatever was there.
    pub store_failure-overwrites :
        value_of (r.look (run r fails (true ∷ []) d).db (result ref)) ≡ some (doc (verdict_doc v))
    store_failure-overwrites =
        ap (λ s. value_of (s (result ref))) (look-run r fails (true ∷ []) d)
        ∙ overwritten_run (r.look d)
