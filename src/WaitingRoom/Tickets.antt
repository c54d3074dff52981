-- ===== src/WaitingRoom/Tickets.antt =====
-- A place in the waiting room: `enter`, `status` and `verify_permit`. A reference or a token that a
-- caller passes stands here as it is after strip(). The references and tokens of uuid4 are arguments.
pub mod Permits
pub mod Checks
pub mod Numbers
use awstest.Prelude.{
  ℕ, zero, suc, ◌+◌, ◌-◌, ◌/◌, String, Bool, true, false, not, Option, none, some, List, [], ◌∷◌,
  max, leb, ltb, ◌==◌, ◌&&◌, ◌||◌, str_eq, if◌then◌else◌,
}
use awstest.Prelude.Int.{ℤ, pos, pos_part, ltb_ℤ, ◌-ℤ◌}
use awstest.Redis.Commands.{num, doc, set_of, value, integer, get, set, incrby, expire}
use awstest.Redis.Raising.{ok, raise, command, or_else, ◌>>=◌, ◌>>◌}
use awstest.WaitingRoom.{
  Kind, concert, theater, Key, enq, rps, ticket, permit, Doc, ticket_doc, permit_doc, other,
  garbage, control_doc, observed_doc, Member, Ticket, Permit, Mode, auto, manual, Room, RoomReply,
  Settings, kind_of,
}
use awstest.WaitingRoom.Control.{Control, control_snapshot}
use awstest.WaitingRoom.Rate.{auto_effective_rate}
use awstest.WaitingRoom.Gate.{advance_done}

pub data Entered : Type 0 where
  bad_kind bad_request : Entered
  queued : String → ℤ → Entered

-- `int(client.incr(key) or 0)`
abbrev integer_or_0 : RoomReply → ℤ
integer_or_0 (integer n) = n
integer_or_0 _ = pos 0

count_entry : Settings → Kind → ℕ → ℕ → Room (Unit {0})
unfolding command
count_entry settings kind entity_id now_sec =
    or_else
      (do
        command (incrby (rps kind entity_id now_sec) (pos 1))
        command (expire (rps kind entity_id now_sec) (max 2 (settings.window_sec + 2)))
        ok tt)
      tt

keep_counter : Settings → Kind → ℕ → Room (Unit {0})
unfolding command
keep_counter settings kind entity_id =
    if settings.counter_ttl == 0
    then ok tt
    else or_else (do command (expire (enq kind entity_id) settings.counter_ttl); ok tt) tt

enter_room : Settings → Kind → ℕ → ℕ → ℕ → ℕ → String → Room Entered
unfolding command count_entry keep_counter
enter_room settings kind entity_id user_id now_sec now_ms ref = do
  r ← command (incrby (enq kind entity_id) (pos 1))
  keep_counter settings kind entity_id
  count_entry settings kind entity_id now_sec
  let t : Ticket = record {
    kind = kind;
    entity_id = entity_id;
    user_id = user_id;
    seq = integer_or_0 r;
    created_at_ms = now_ms;
  }
  command (set (ticket ref) (doc (ticket_doc t)) false (some settings.ref_ttl))
  ok (queued ref (integer_or_0 r))

unfoldable pub enter : Settings → String → ℕ → ℕ → ℕ → ℕ → String → Room Entered
unfolding enter_room kind_of
enter settings kind entity_id user_id now_sec now_ms ref = elim (kind_of kind) [
  | none ↦ ok bad_kind
  | some k ↦
      if entity_id == 0 || user_id == 0
      then ok bad_request
      else enter_room settings k entity_id user_id now_sec now_ms ref
]

pub record QueueView : Type 0 where
  pub kind : Kind
  pub entity_id : ℕ
  pub seq : ℤ
  pub done : ℤ
  pub position : ℕ
  pub ahead : ℕ

pub record Progress : Type 0 where
  pub control : Control
  pub rate : ℕ
  pub eta_sec : Option ℕ
  pub queue : QueueView

pub data Status : Type 0 where
  invalid_ref unknown_or_expired : Status
  admitted : String → Progress → Status
  processing : Progress → Status

abbrev pub position_of : ℤ → ℤ → ℕ
position_of seq done = if ltb_ℤ (pos 0) seq then pos_part (seq -ℤ done) else 0

abbrev pub eta_of : ℕ → ℕ → Option ℕ
eta_of rate ahead = if ltb 0 rate && ltb 0 ahead then some ((ahead + rate - 1) / rate) else none

abbrev pub progress_of : Ticket → Control → ℕ → ℤ → Progress
progress_of t c rate done = record {
  control = c;
  rate = rate;
  eta_sec = eta_of rate (position_of t.seq done - 1);
  queue = record {
    kind = t.kind;
    entity_id = t.entity_id;
    seq = t.seq;
    done = done;
    position = position_of t.seq done;
    ahead = position_of t.seq done - 1;
  };
}

-- The readings of the time, in their order, and the token.
pub record Moment : Type 0 where
  pub advance_sec : ℕ
  pub advance_ms : ℕ
  pub rate_sec : ℕ
  pub issue_ms : ℕ
  pub token : String

shown_rate : Settings → Ticket → ℕ → Control → Room ℕ
shown_rate settings t now_sec c = if not c.enabled then ok 0 else elim c.mode [
  | manual ↦ ok (max 1 c.admit_rate)
  | auto ↦ auto_effective_rate settings t.kind t.entity_id now_sec
]

issue : Settings → Ticket → Moment → Progress → Room Status
unfolding command
issue settings t now p = do
  let permission : Permit = record {
    kind = t.kind;
    entity_id = t.entity_id;
    user_id = t.user_id;
    issued_at_ms = now.issue_ms;
  }
  command (set (permit now.token) (doc (permit_doc permission)) false (some settings.permit_ttl))
  ok (admitted now.token p)

answer_status : Settings → Ticket → Moment → Progress → Room Status
unfolding issue
answer_status settings t now p =
    if leb p.queue.position 1 && ltb_ℤ (pos 0) t.seq
    then issue settings t now p
    else ok (processing p)

status_of : Settings → Ticket → Moment → Room Status
unfolding control_snapshot advance_done shown_rate answer_status
status_of settings t now = do
  c ← control_snapshot settings t.kind t.entity_id
  done ← advance_done settings t.kind t.entity_id now.advance_sec now.advance_ms
  rate ← shown_rate settings t now.rate_sec c
  answer_status settings t now (progress_of t c rate done)

resume : Settings → Moment → RoomReply → Room Status
unfolding status_of
resume settings now (value (doc (ticket_doc t))) = status_of settings t now
resume settings now (value (doc other)) = raise
resume settings now _ = ok unknown_or_expired

unfoldable pub status : Settings → String → Moment → Room Status
unfolding command resume
status settings ref now =
    if str_eq ref ""
    then ok invalid_ref
    else do raw ← command (get (ticket ref)); resume settings now raw

abbrev pub same_kind : Kind → Kind → Bool
same_kind concert concert = true
same_kind theater theater = true
same_kind _ _ = false

abbrev matches : Kind → ℕ → ℕ → Permit → Bool
matches kind entity_id user_id p =
    same_kind p.kind kind && (p.entity_id == entity_id && p.user_id == user_id)

unfoldable pub accepts : Kind → ℕ → ℕ → RoomReply → Option Bool
accepts kind entity_id user_id (value (doc (permit_doc p))) =
    some (matches kind entity_id user_id p)
accepts kind entity_id user_id (value (doc other)) = none
accepts kind entity_id user_id _ = some false

decided : Option Bool → Room Bool
decided o = elim o [ none ↦ raise | some b ↦ ok b ]

unfoldable pub verify_permit : String → Kind → ℕ → ℕ → Room Bool
unfolding command accepts decided
verify_permit token kind entity_id user_id =
    if str_eq token ""
    then ok false
    else do raw ← command (get (permit token)); decided (accepts kind entity_id user_id raw)
