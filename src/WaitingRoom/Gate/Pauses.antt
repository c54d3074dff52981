-- ===== src/WaitingRoom/Gate/Pauses.antt =====
-- A pause of the gate: while `enabled` is false, polls leave the clock where it is.
use awstest.Prelude.{ℕ, ◌≡◌, refl, ap, ap₂, ◌∙◌, true, false, Option, none, some, [], max}
use awstest.Prelude.Int.{ℤ, pos}
use awstest.Redis.Commands.{Value, num, doc, get, value}
use awstest.Redis.Program.{run, Outcome}
use awstest.Redis.Spares.{value_of, apply-get}
use awstest.Redis.Pipeline.{run-bind}
use awstest.Redis.Reading.{get-reply, Plain}
use awstest.Redis.Raising.{command, ok, raise, go_on, ◌>>=◌, is_error_reply}
use awstest.Redis.Raising.Runs.{command-runs}
use awstest.WaitingRoom.{
  Kind, Key, done, control, Doc, control_doc, ControlDoc, manual, Member, Room, RoomReply, Settings,
  int_of, Key-discrete, Member-discrete,
}
use awstest.WaitingRoom.Control.{Control, read_control, control_of, control_snapshot}
use awstest.WaitingRoom.Gate.{gate_rate, number_at, open_gate, advance_done}
use awstest.WaitingRoom.Gate.Steps.{GateState, Shows, RoomStore, on_room}

module _ (settings : Settings) (kind : Kind) (entity_id : ℕ) (s : RoomStore) where
  -- A command that reads a known document.
  reads :
      {A : Type 0} (k : Key) (v : Value Doc Member) (f : RoomReply → Room A)
      → Plain v
      → value_of (s k) ≡ some v
      → on_room (command (get k) >>= f) [] s ≡ on_room (f (value v)) [] s
  reads k v f p h =
      let reply = get-reply Key-discrete Member-discrete k s v p h in
      command-runs Key-discrete Member-discrete (get k) f s (ap is_error_reply reply ∙ plain v p)
      ∙ ap₂ (λ r u. on_room (f r) [] u) reply (apply-get Key-discrete Member-discrete k s)
    where
      plain : (v : Value Doc Member) → Plain v → is_error_reply (value v) ≡ false
      plain v p = refl

  pub snapshot-run :
      (c : ControlDoc)
      → value_of (s (control kind entity_id)) ≡ some (doc (control_doc c))
      → on_room (control_snapshot settings kind entity_id) [] s
        ≡ record { result = some (read_control settings c); faults = []; db = s }
  unfolding control_snapshot control_of run
  snapshot-run c has =
      reads (control kind entity_id) (doc (control_doc c)) (λ raw. ok (control_of settings raw)) tt
        has

  module _ (c : ControlDoc)
      (has : value_of (s (control kind entity_id)) ≡ some (doc (control_doc c)))
      (now_sec now_ms : ℕ) where
    abbrev with_control : Control → Room ℤ
    with_control c = elim c.enabled [
      | false ↦ number_at (done kind entity_id)
      | true ↦ (do
        rate ← gate_rate settings kind entity_id now_sec c
        open_gate settings kind entity_id rate now_ms)
    ]

    advance-control :
        on_room (advance_done settings kind entity_id now_sec now_ms) [] s
        ≡ on_room (with_control (read_control settings c)) [] s
    unfolding advance_done
    advance-control =
        run-bind Key-discrete Member-discrete (go_on with_control)
          (control_snapshot settings kind entity_id) [] s
        ∙ ap
            (λ (o : Outcome RoomStore (Option Control)).
              on_room (go_on with_control o.result) o.faults o.db)
            snapshot
      where
        snapshot :
            on_room (control_snapshot settings kind entity_id) [] s
            ≡ record { result = some (read_control settings c); faults = []; db = s }
        snapshot = snapshot-run c has

    pub paused_run :
        (g : GateState)
        → Shows kind entity_id g s
        → (read_control settings c).enabled ≡ false
        → on_room (advance_done settings kind entity_id now_sec now_ms) [] s
          ≡ record { result = some (pos g.admitted); faults = []; db = s }
    unfolding number_at run
    paused_run g h e =
        advance-control
        ∙ rw e (
            reads (done kind entity_id) (num (pos g.admitted))
              (λ r. elim (int_of r) [ none ↦ raise | some n ↦ ok n ]) tt h.1)

    pub manual_run :
        (read_control settings c).enabled ≡ true
        → (read_control settings c).mode ≡ manual
        → on_room (advance_done settings kind entity_id now_sec now_ms) [] s
          ≡ on_room
              (open_gate settings kind entity_id
                (max 1 (read_control settings c).admit_rate)
                now_ms)
              []
              s
    unfolding gate_rate
    manual_run e m = advance-control ∙ rw (e, m) refl
