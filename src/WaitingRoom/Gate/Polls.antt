-- ===== src/WaitingRoom/Gate/Polls.antt =====
-- Polls of the gate on a server.
use awstest.Prelude.{ℕ, ◌≤◌, ◌<◌, ◌≡◌, sym, ap, subst, ◌∙◌, some, Option, [], arith}
use awstest.Prelude.Int.{ℤ, pos}
use awstest.Redis.Program.{Redis, run, Outcome}
use awstest.Redis.Simulation.{result-run, look-run}
use awstest.WaitingRoom.{Kind, Doc, Key-discrete, Member-discrete, Settings}
use awstest.WaitingRoom.Gate.{open_gate}
use awstest.WaitingRoom.Gate.Steps.{GateState, tick, Shows, gate_run, tick_split}

abbrev pub RoomServer : Type 1
RoomServer = Redis Doc Key-discrete Member-discrete

module _ (r : RoomServer) (settings : Settings) (kind : Kind) (entity_id rate : ℕ) (g : GateState)
    (d : r.Db) (shown : Shows kind entity_id g (r.look d)) (started : 0 < g.clock_ms)
    (opens : 0 < rate) where
  abbrev poll : ℕ → r.Db → Outcome r.Db (Option ℤ)
  poll now_ms e = run r (open_gate settings kind entity_id rate now_ms) [] e

  -- If no request fails, a poll of a gate whose clock has been started answers and leaves the gate that `tick` gives: a
  -- count that has grown by the rate for each whole second since the clock, and a clock moved by these seconds.
  pub open_gate-tick :
      (now_ms : ℕ)
      → let o = poll now_ms d in
        (o.result ≡ some (pos (tick rate now_ms g).admitted))
        × Shows kind entity_id (tick rate now_ms g) (r.look o.db)
  open_gate-tick now_ms =
      let m = open_gate settings kind entity_id rate now_ms in
      let o = gate_run settings kind entity_id rate now_ms g (r.look d) shown started opens in
      (
        result-run r m [] d ∙ o.0,
        subst (Shows kind entity_id (tick rate now_ms g)) (sym (look-run r m [] d)) o.1,
      )

tick-started :
    (rate now_ms : ℕ) (g : GateState) → 0 < g.clock_ms → 0 < (tick rate now_ms g).clock_ms
unfolding tick
tick-started rate now_ms g h = omega (arith, h)

tick-grows : (rate now_ms : ℕ) (g : GateState) → g.admitted ≤ (tick rate now_ms g).admitted
unfolding tick
tick-grows rate now_ms g = omega arith

module _ (r : RoomServer) (settings : Settings) (kind : Kind) (entity_id rate : ℕ) (g : GateState)
    (d : r.Db) (shown : Shows kind entity_id g (r.look d)) (started : 0 < g.clock_ms)
    (opens : 0 < rate) where
  abbrev poll_of : ℕ → r.Db → Outcome r.Db (Option ℤ)
  poll_of now_ms e = run r (open_gate settings kind entity_id rate now_ms) [] e

  -- At a constant rate, a poll at `t` followed by one at `u` admits as many as the one at `u` alone: polling
  -- often loses no fraction of a second and admits no one early.
  pub polls-split : (t u : ℕ) → t ≤ u → (poll_of u (poll_of t d).db).result ≡ (poll_of u d).result
  polls-split t u h =
      let first = open_gate-tick r settings kind entity_id rate g d shown started opens t in
      (open_gate-tick r settings kind entity_id rate (tick rate t g) (poll_of t d).db first.1
        (tick-started rate t g started) opens u).0
      ∙ ap (λ x. some (pos x.admitted)) (tick_split rate t u g h)
      ∙ sym (open_gate-tick r settings kind entity_id rate g d shown started opens u).0
