-- ===== src/WaitingRoom/Examples.antt =====
-- The theorems on the waiting room, at a room whose gate is at second 100 with ten admitted.
use awstest.Prelude.{
  ℕ_discrete, ◌≤◌, String, ◌≡◌, ◌≢◌, ℕ, inr, ◌∷◌, refl, true, false, Option, none, some, [], arith,
  max, if◌then◌else◌, str_eq,
}
use awstest.Prelude.Int.{pos, ◌+ℤ◌, ◌-ℤ◌}
use awstest.Prelude.Text.{is_lower, to_lower, is_upper, strip, to_upper, same_codes}
use awstest.Redis.Commands.{Entry, num, doc, get, set, apply, answer, after, update}
use awstest.Redis.Program.{run}
use awstest.Redis.Simulation.{documented}
use awstest.Redis.Spares.{value_of}
use awstest.WaitingRoom.{
  Kind, concert, Key, clock, done, control, enq, ticket, permit, Doc, control_doc, ticket_doc,
  kind_of, permit_doc, ControlDoc, Ticket, absent, number, Settings, Key-discrete, Member-discrete,
}
use awstest.WaitingRoom.Control.{read_control, set_control_full}
use awstest.WaitingRoom.Rate.{auto_effective_rate, lowest, highest}
use awstest.WaitingRoom.Rate.Range.{auto_rate-in_range}
use awstest.WaitingRoom.Gate.{open_gate, advance_done}
use awstest.WaitingRoom.Gate.Steps.{GateState, RoomStore, tick, Shows}
use awstest.WaitingRoom.Gate.Polls.{RoomServer, open_gate-tick, polls-split}
use awstest.WaitingRoom.Gate.Resuming.{paused-keeps, pause-admits}
use awstest.WaitingRoom.Tickets.{Moment, enter, status, verify_permit, admitted, Progress}
use awstest.WaitingRoom.Tickets.Numbers.{Numbered, enter-numbers}
use awstest.WaitingRoom.Tickets.Permits.{status-permits}
use awstest.WaitingRoom.Tickets.Checks.{PermitFor, verify_permit_sound}

abbrev server : RoomServer
server = documented Key-discrete Member-discrete

abbrev settings : Settings
settings = record {
  admit_rate = 90;
  permit_ttl = 120;
  ref_ttl = 7200;
  counter_ttl = 7200;
  drain_sec = 90;
  max_rate = 220;
  min_rate = 8;
  window_sec = 1;
  observe_ttl = 30;
  bypass_backlog = 100;
  bypass_rps = 8;
  queue_on_backlog = 450;
  queue_on_rps = 30;
}

abbrev gate : GateState
gate = record { clock_ms = 100000; admitted = 10 }

abbrev entry :
    awstest.Redis.Commands.Value Doc awstest.WaitingRoom.Member
    → Option (Entry Doc awstest.WaitingRoom.Member)
entry v = some (record { value = v; ttl = none })

abbrev closed : ControlDoc
closed = record {
  mode_text = "MANUAL";
  enabled = some false;
  admit_rate = number (pos 5);
  message = "";
}

abbrev place : Ticket
place = record { kind = concert; entity_id = 1; user_id = 7; seq = pos 11; created_at_ms = 0 }

-- The gate is closed by the operator; one ticket, number 11.
abbrev room : RoomStore
room (clock concert n) = entry (num (pos 100000))
room (done concert n) = entry (num (pos 10))
room (control concert n) = entry (doc (control_doc closed))
room (ticket ref) = if str_eq ref "r1" then entry (doc (ticket_doc place)) else none
room k = none

shown : Shows concert 1 gate room
shown = (refl, refl)

open_gate-tick_example :
    let o = run server (open_gate settings concert 1 5 102500) [] room in
    (o.result ≡ some (pos (tick 5 102500 gate).admitted))
    × Shows concert 1 (tick 5 102500 gate) o.db
open_gate-tick_example =
    open_gate-tick server settings concert 1 5 gate room shown (omega arith) (omega arith) 102500

polls-split_example :
    (run server
      (open_gate settings concert 1 5 102500)
      []
      (run server (open_gate settings concert 1 5 101700) [] room).db).result
    ≡ (run server (open_gate settings concert 1 5 102500) [] room).result
polls-split_example =
    polls-split server settings concert 1 5 gate room shown (omega arith) (omega arith) 101700
      102500 (omega arith)

is_closed : (read_control settings closed).enabled ≡ false
unfolding read_control
is_closed = refl

is_manual : (read_control settings closed).mode ≡ awstest.WaitingRoom.Mode.manual
unfolding read_control is_upper strip to_upper same_codes
is_manual = refl

paused-keeps_example :
    let o = run server (advance_done settings concert 1 104 104000) [] room in
    (o.result ≡ some (pos 10)) × (o.db ≡ room)
paused-keeps_example =
    paused-keeps server settings concert 1 closed gate room shown (omega arith) refl 104 104000
      is_closed

pause-admits_example :
    (run server
      (advance_done settings concert 1 110 110000)
      []
      (run server
        (set_control_full settings concert 1 none (some true) none none)
        []
        (run server (advance_done settings concert 1 104 104000) [] room).db).db).result
    ≡ some (pos (tick (max 1 (read_control settings closed).admit_rate) 110000 gate).admitted)
pause-admits_example =
    pause-admits server settings concert 1 closed gate room shown (omega arith) refl 104 104000 110
      110000 is_closed is_manual

abbrev now : Moment
now = record {
  advance_sec = 104;
  advance_ms = 104000;
  rate_sec = 104;
  issue_ms = 104000;
  token = "p1";
}

abbrev told : Progress
told = record {
  control = record {
    mode = awstest.WaitingRoom.Mode.manual;
    enabled = false;
    admit_rate = 5;
    message = "";
  };
  rate = 0;
  eta_sec = none;
  queue = record {
    kind = concert;
    entity_id = 1;
    seq = pos 11;
    done = pos 10;
    position = 1;
    ahead = 0;
  };
}

lets_in : (run server (status settings "r1" now) [] room).result ≡ some (admitted "p1" told)
unfolding status run apply answer Key-discrete ℕ_discrete after ◌-ℤ◌
lets_in = refl

abbrev token : String
token = "p1"

p1≢empty : token ≢ ""
p1≢empty p = cc

status-permits_example :
    (1 ≤ 1)
    × ((run server
          (verify_permit "p1" concert 1 7)
          []
          (run server (status settings "r1" now) [] room).db).result
        ≡ some true)
status-permits_example =
    status-permits server settings "r1" now place [] room "p1" told refl p1≢empty lets_in

abbrev with_permit : RoomStore
with_permit (permit token) =
    if str_eq token "p1"
    then entry
        (doc (permit_doc (record { kind = concert; entity_id = 1; user_id = 7; issued_at_ms = 0 })))
    else none
with_permit k = none

accepts_holder : (run server (verify_permit "p1" concert 1 7) [] with_permit).result ≡ some true
unfolding verify_permit run apply answer
accepts_holder = refl

verify_permit_sound_example : PermitFor concert 1 7 (value_of (with_permit (permit "p1")))
verify_permit_sound_example =
    verify_permit_sound concert 1 7 server "p1" [] with_permit accepts_holder

drains : (run server (auto_effective_rate settings concert 1 104) [] room).result ≡ some 220
unfolding auto_effective_rate run apply answer Key-discrete ◌+ℤ◌ ◌-ℤ◌
drains = refl

auto_rate-in_range_example : (lowest settings ≤ 220) × (220 ≤ highest settings)
auto_rate-in_range_example = auto_rate-in_range server settings concert 1 104 [] room 220 drains

abbrev nobody : RoomStore
nobody k = none

abbrev hall : ℕ
hall = 1

abbrev no_number : ℕ
no_number = 0

hall≢zero : hall ≢ no_number
hall≢zero p = omega (arith, p)

concert_text : kind_of "concert" ≡ some concert
unfolding kind_of is_lower strip to_lower same_codes
concert_text = refl

enter-numbers_example :
    let o = run server (enter settings "concert" 1 1 50 50000 "q1") (false ∷ true ∷ []) nobody in
    (value_of (o.db (enq concert 1)) ≡ some (num (pos 0 +ℤ pos 1)))
    × Numbered "q1" (pos 0 +ℤ pos 1) o.result
enter-numbers_example =
    enter-numbers settings concert hall hall 50 50000 "q1" server "concert" (true ∷ []) nobody
      (pos 0) concert_text hall≢zero hall≢zero (inr (refl, refl))
