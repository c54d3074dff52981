-- ===== src/WaitingRoom/Gate.antt =====
-- The gate: `_advance_done` admits by the time that has passed.
pub mod Steps
pub mod Polls
pub mod Pauses
pub mod Resuming
use awstest.Prelude.{
  ℕ, zero, suc, ◌+◌, ◌-◌, ◌*◌, ◌/◌, Bool, true, false, Option, none, some, List, [], ◌∷◌, ◌++◌, map,
  max, ◌==◌, if◌then◌else◌,
}
use awstest.Prelude.Int.{ℤ, pos, pos_part, ltb_ℤ, ◌+ℤ◌}
use awstest.Redis.Commands.{num, get, set, expire}
use awstest.Redis.Raising.{ok, raise, execute, command, or_else, ◌>>=◌, ◌>>◌}
use awstest.WaitingRoom.{
  Kind, Key, done, clock, Doc, Member, Mode, auto, manual, Room, RoomReply, Settings, int_of,
  int_or_0,
}
use awstest.WaitingRoom.Control.{Control, control_snapshot}
use awstest.WaitingRoom.Rate.{auto_effective_rate}

-- The rate at which the gate opens: `rate` of `_advance_done`.
unfoldable pub gate_rate : Settings → Kind → ℕ → ℕ → Control → Room ℕ
gate_rate settings kind entity_id now_sec c = elim c.mode [
  | manual ↦ ok (max 1 c.admit_rate)
  | auto ↦ auto_effective_rate settings kind entity_id now_sec
]

-- `int(client.get(key) or 0)`, which raises
unfoldable pub number_at : Key → Room ℤ
unfolding command
number_at k = do r ← command (get k); elim (int_of r) [ none ↦ raise | some n ↦ ok n ]

-- `if ttl > 0:` two EXPIREs, whose exceptions are swallowed
refresh : Settings → Kind → ℕ → Room (Unit {0})
unfolding command
refresh settings kind entity_id =
    if settings.counter_ttl == 0
    then ok tt
    else or_else
        (do
          command (expire (clock kind entity_id) settings.counter_ttl)
          command (expire (done kind entity_id) settings.counter_ttl)
          ok tt)
        tt

start : Settings → Kind → ℕ → ℕ → ℤ → Room ℤ
unfolding command refresh
start settings kind entity_id now_ms admitted = do
  command (set (clock kind entity_id) (num (pos now_ms)) false none)
  refresh settings kind entity_id
  ok admitted

advance_commands :
    Settings → Kind → ℕ → ℕ → ℕ → ℤ → List (awstest.Redis.Commands.Command Key Doc Member)
advance_commands settings kind entity_id prev seconds new_done =
    set (clock kind entity_id) (num (pos (prev + seconds * 1000))) false none
    ∷ set (done kind entity_id) (num new_done) false none
    ∷ (if settings.counter_ttl == 0
        then []
        else expire (clock kind entity_id) settings.counter_ttl
          ∷ expire (done kind entity_id) settings.counter_ttl
          ∷ [])

-- The clock of the last step is `prev`, and `now_ms - prev` is cut at zero.
advance : Settings → Kind → ℕ → ℕ → ℕ → ℕ → ℤ → Room ℤ
unfolding execute advance_commands
advance settings kind entity_id rate now_ms prev admitted =
    let seconds = (now_ms - prev) / 1000 in
    if seconds * rate == 0 then ok admitted else do
      execute
          (advance_commands settings kind entity_id prev seconds (admitted +ℤ pos (seconds * rate)))
      ok (admitted +ℤ pos (seconds * rate))

-- `prev_clock_raw, done_raw = pipe.execute()`
abbrev pub pair_of : List RoomReply → Option (ℤ × ℤ)
pair_of [] = none
pair_of (c ∷ []) = none
pair_of (c ∷ d ∷ []) = some (int_or_0 (int_of c), int_or_0 (int_of d))
pair_of (c ∷ d ∷ e ∷ rs) = none

step : Settings → Kind → ℕ → ℕ → ℕ → ℤ × ℤ → Room ℤ
unfolding start advance
step settings kind entity_id rate now_ms read =
    let prev = pos_part read.0 in
    if prev == 0
    then start settings kind entity_id now_ms read.1
    else advance settings kind entity_id rate now_ms prev read.1

unfoldable pub open_gate : Settings → Kind → ℕ → ℕ → ℕ → Room ℤ
unfolding execute step
open_gate settings kind entity_id rate now_ms = do
  raw ← execute (get (clock kind entity_id) ∷ get (done kind entity_id) ∷ [])
  elim (pair_of raw) [ none ↦ raise | some read ↦ step settings kind entity_id rate now_ms read ]

-- `now_sec` and `now_ms` are the two readings of the time.
unfoldable pub advance_done : Settings → Kind → ℕ → ℕ → ℕ → Room ℤ
unfolding control_snapshot number_at gate_rate open_gate
advance_done settings kind entity_id now_sec now_ms = do
  c ← control_snapshot settings kind entity_id
  elim c.enabled [
    | false ↦ number_at (done kind entity_id)
    | true ↦ (do
      rate ← gate_rate settings kind entity_id now_sec c
      open_gate settings kind entity_id rate now_ms)
  ]
