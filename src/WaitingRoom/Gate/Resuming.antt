-- ===== src/WaitingRoom/Gate/Resuming.antt =====
-- What a pause of the gate costs: nothing. Its seconds are counted when the gate opens again.
use awstest.Prelude.{
  ℕ, ◌≡◌, ◌<◌, refl, if_pos, ap, ◌∙◌, true, false, Option, none, some, [], max, arith,
}
use awstest.Prelude.Int.{ℤ, pos}
use awstest.Redis.Commands.{doc, set, apply, after, update}
use awstest.Redis.Program.{run, Outcome}
use awstest.Redis.Simulation.{result-run, look-run}
use awstest.Redis.Spares.{value_of, apply-Spares}
use awstest.Redis.Pipeline.{run-bind}
use awstest.Redis.Raising.{go_on}
use awstest.Redis.Raising.Runs.{command-runs, set-Succeeds}
use awstest.WaitingRoom.{
  Kind, clock, done, control, control_doc, ControlDoc, manual, Room, Settings, Key-discrete,
  Member-discrete,
}
use awstest.WaitingRoom.Control.{
  Control, read_control, write_control, changed, store_control, set_control_full,
}
use awstest.WaitingRoom.Gate.{open_gate, advance_done}
use awstest.WaitingRoom.Gate.Steps.{GateState, tick, Shows, RoomStore, on_room, gate_run}
use awstest.WaitingRoom.Gate.Polls.{RoomServer}
use awstest.WaitingRoom.Gate.Pauses.{snapshot-run, paused_run, manual_run}

module _ (settings : Settings) (kind : Kind) (entity_id : ℕ) (c : ControlDoc) where
  abbrev before : Control
  before = read_control settings c

  abbrev opened : ControlDoc
  opened = write_control (changed before none (some true) none none)

  opened-enabled : (read_control settings opened).enabled ≡ true
  unfolding read_control changed
  opened-enabled = refl

  opened-mode : before.mode ≡ manual → (read_control settings opened).mode ≡ manual
  unfolding read_control changed
  opened-mode h = rw h refl

  opened-rate : (read_control settings opened).admit_rate ≡ before.admit_rate
  unfolding read_control changed
  opened-rate = ground arith

  abbrev reopened : RoomStore → RoomStore
  reopened s =
      (apply Key-discrete Member-discrete
        (set (control kind entity_id) (doc (control_doc opened)) false none) s).1

  reopened-control :
      (s : RoomStore)
      → value_of (reopened s (control kind entity_id)) ≡ some (doc (control_doc opened))
  unfolding apply after update
  reopened-control s =
      ap value_of (if_pos (Key-discrete (control kind entity_id) (control kind entity_id)) refl _ _)

  reopened-Shows :
      (g : GateState) (s : RoomStore)
      → Shows kind entity_id g s
      → Shows kind entity_id g (reopened s)
  reopened-Shows g s h = (
    apply-Spares Key-discrete Member-discrete (clock kind entity_id)
          (set (control kind entity_id) _ false none) s (λ p. cc)
        ∙ h.0,
    apply-Spares Key-discrete Member-discrete (done kind entity_id)
          (set (control kind entity_id) _ false none) s (λ p. cc)
        ∙ h.1,
  )

  store_run :
      (s : RoomStore)
      → (on_room (store_control kind entity_id (changed before none (some true) none none)) [] s).db
        ≡ reopened s
  unfolding store_control run apply
  store_run s =
      ap (λ (o : Outcome RoomStore (Option Control)). o.db)
        (command-runs Key-discrete Member-discrete
          (set (control kind entity_id) (doc (control_doc opened)) false none) _ s
          (set-Succeeds Key-discrete Member-discrete (control kind entity_id)
            (doc (control_doc opened)) false none (s (control kind entity_id))))

  module _ (s : RoomStore)
      (has : value_of (s (control kind entity_id)) ≡ some (doc (control_doc c))) where
    reopen_run :
        (on_room (set_control_full settings kind entity_id none (some true) none none) [] s).db
        ≡ reopened s
    unfolding set_control_full
    reopen_run =
        ap (λ o. o.db) (run-bind Key-discrete Member-discrete (go_on write) _ [] s)
        ∙ ap
            (λ (o : Outcome RoomStore (Option Control)).
              (on_room (go_on write o.result) o.faults o.db).db)
            (snapshot-run settings kind entity_id s c has)
        ∙ stored
      where
        write : Control → Room Control
        write cur = store_control kind entity_id (changed cur none (some true) none none)

        stored : (on_room (write before) [] s).db ≡ reopened s
        stored = store_run s

    reopened_run :
        (g : GateState) (now_sec now_ms : ℕ)
        → Shows kind entity_id g s
        → 0 < g.clock_ms
        → before.mode ≡ manual
        → (on_room (advance_done settings kind entity_id now_sec now_ms) [] (reopened s)).result
          ≡ some (pos (tick (max 1 before.admit_rate) now_ms g).admitted)
    reopened_run g now_sec now_ms shown started m =
        ap (λ (o : Outcome RoomStore (Option ℤ)). o.result)
          (manual_run settings kind entity_id (reopened s) opened (reopened-control s) now_sec
            now_ms opened-enabled (opened-mode m))
        ∙ ap
            (λ rate.
              (on_room (open_gate settings kind entity_id (max 1 rate) now_ms) []
                (reopened s)).result)
            opened-rate
        ∙ (gate_run settings kind entity_id (max 1 before.admit_rate) now_ms g (reopened s)
            (reopened-Shows g s shown) started (omega arith)).0

module _ (r : RoomServer) (settings : Settings) (kind : Kind) (entity_id : ℕ) (c : ControlDoc)
    (g : GateState) (d : r.Db) (shown : Shows kind entity_id g (r.look d))
    (started : 0 < g.clock_ms)
    (has : value_of (r.look d (control kind entity_id)) ≡ some (doc (control_doc c))) where
  -- If the control document pauses the gate, a poll (no request fails) answers the count and changes no key.
  pub paused-keeps :
      (now_sec now_ms : ℕ)
      → (read_control settings c).enabled ≡ false
      → let o = run r (advance_done settings kind entity_id now_sec now_ms) [] d in
        (o.result ≡ some (pos g.admitted)) × (r.look o.db ≡ r.look d)
  paused-keeps now_sec now_ms e =
      let m = advance_done settings kind entity_id now_sec now_ms in
      let p = paused_run settings kind entity_id (r.look d) c has now_sec now_ms g shown e in
      (
        result-run r m [] d ∙ ap (λ (o : Outcome RoomStore (Option ℤ)). o.result) p,
        look-run r m [] d ∙ ap (λ (o : Outcome RoomStore (Option ℤ)). o.db) p,
      )

  -- In MANUAL mode, when an operator opens a paused gate, the next poll (no request fails) admits at the full rate for
  -- all the time since the clock, the pause included.
  pub pause-admits :
      (t_sec t u_sec u : ℕ)
      → (read_control settings c).enabled ≡ false
      → (read_control settings c).mode ≡ manual
      → let paused = run r (advance_done settings kind entity_id t_sec t) [] d in
        let resumed =
          run r
            (set_control_full settings kind entity_id none (some true) none none)
            []
            paused.db in
        (run r (advance_done settings kind entity_id u_sec u) [] resumed.db).result
        ≡ some (pos (tick (max 1 (read_control settings c).admit_rate) u g).admitted)
  pause-admits t_sec t u_sec u e m =
      result-run r poll [] resumed
      ∙ ap (λ s. (on_room poll [] s).result)
          (look-run r reopen [] paused
            ∙ ap (λ s. (on_room reopen [] s).db) same
            ∙ reopen_run settings kind entity_id c (r.look d) has)
      ∙ reopened_run settings kind entity_id c (r.look d) has g u_sec u shown started m
    where
      poll : Room ℤ
      poll = advance_done settings kind entity_id u_sec u

      reopen : Room Control
      reopen = set_control_full settings kind entity_id none (some true) none none

      paused : r.Db
      paused = (run r (advance_done settings kind entity_id t_sec t) [] d).db

      resumed : r.Db
      resumed = (run r reopen [] paused).db

      same : r.look paused ≡ r.look d
      same = (paused-keeps t_sec t e).1
