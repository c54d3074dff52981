-- ===== src/Worker/Messages/Redelivery.antt =====
-- A message that is delivered again after its result was stored.
use awstest.Prelude.{String, ◌≡◌, ◌≢◌, refl, ap, ◌∙◌, Bool, true, false, some, [], ◌∷◌, str_neq}
use awstest.Redis.Commands.{doc, get, value, apply}
use awstest.Redis.Program.{Faults, run, serve, pipeline, queue}
use awstest.Redis.Simulation.{result-run, look-run}
use awstest.Redis.Spares.{value_of, apply-get}
use awstest.Redis.Reading.{get-reply}
use awstest.Redis.Raising.{command, raised, first, has_error}
use awstest.Booking.{
  result, Verdict, verdict_doc, DeskStore, DeskServer, on_desk, Key-discrete, Member-discrete,
}
use awstest.Worker.Messages.{
  Body, Message, World, Workers, is_there, look_up, has_result, unless_done, handle_body,
  handle_one_sqs_message,
}

-- The next request is served.
abbrev pub NextServed : Faults → Type 0
NextServed [] = Unit
NextServed (b ∷ fs) = b ≡ false

module _ (ref : String) (v : Verdict) (s : DeskStore)
    (h : value_of (s (result ref)) ≡ some (doc (verdict_doc v))) where
  replied :
      first (raised (some ((apply Key-discrete Member-discrete (get (result ref)) s).0 ∷ [])))
      ≡ some (value (doc (verdict_doc v)))
  unfolding raised first has_error
  replied =
      ap (λ r. first (raised (some (r ∷ []))))
        (get-reply Key-discrete Member-discrete (result ref) s (doc (verdict_doc v)) tt h)

  get_run :
      (fs : Faults)
      → NextServed fs
      → let o = on_desk (command (get (result ref))) fs s in
        (o.result ≡ some (value (doc (verdict_doc v)))) × (o.db ≡ s)
  unfolding command run serve pipeline queue
  get_run [] p = (replied, apply-get Key-discrete Member-discrete (result ref) s)
  get_run (true ∷ fs) p = absurd (no_failure p)
    where
      no_failure : true ≡ false → ⊥
      no_failure q = cc
  get_run (false ∷ fs) p = (replied, apply-get Key-discrete Member-discrete (result ref) s)

module _ (r : DeskServer) {W : Type 0} (workers : Workers r.Db W) (receipt ref : String)
    (is_concert : Bool) (v : Verdict) (w : World r.Db W) where
  abbrev body : Body
  body = record { booking_ref = some ref; is_concert = is_concert }

  abbrev delivered : Message
  delivered = record { receipt = some receipt; body = some body }

  done_before : (x : Bool × World r.Db W) → x.0 ≡ true → unless_done r workers body x ≡ (true, x.1)
  unfolding unless_done
  done_before (true, w') h = refl
  done_before (false, w') h = cc

  module _ (n : ref ≢ "") (h : value_of (r.look w.desk (result ref)) ≡ some (doc (verdict_doc v)))
      (p : NextServed w.faults) where
    looked_up : (look_up r workers ref w).0 ≡ true
    unfolding look_up
    looked_up = ap is_there (
        result-run r (command (get (result ref))) w.faults w.desk
        ∙ (get_run ref v (r.look w.desk) h w.faults p).0)

    handled : handle_one_sqs_message r workers delivered w ≡ (true, (look_up r workers ref w).1)
    unfolding handle_one_sqs_message handle_body has_result
    handled = rw (str_neq ref "" n) (done_before (look_up r workers ref w) looked_up)

    -- If the store has a result for the reference and the next request is served, the handler answers true, and leaves
    -- the keys, the deletions and all else: no booking function runs.
    pub redelivery-acks :
        let o = handle_one_sqs_message r workers delivered w in
        (o.0 ≡ true)
        × (r.look o.1.desk ≡ r.look w.desk)
        × (o.1.deleted ≡ w.deleted)
        × (o.1.rest ≡ w.rest)
    unfolding look_up
    redelivery-acks = (
      ap (λ (x : Bool × World r.Db W). x.0) handled,
      ap (λ (x : Bool × World r.Db W). r.look x.1.desk) handled
          ∙ look-run r (command (get (result ref))) w.faults w.desk
          ∙ (get_run ref v (r.look w.desk) h w.faults p).1,
      ap (λ (x : Bool × World r.Db W). x.1.deleted) handled,
      ap (λ (x : Bool × World r.Db W). x.1.rest) handled,
    )
