-- ===== src/WaitingRoom/Control.antt =====
-- The operator's settings of a waiting room, and the observations of the monitoring.
use awstest.Prelude.{ℕ, String, Bool, true, false, Option, none, some, max, ◌==◌, if◌then◌else◌}
use awstest.Prelude.Int.{ℤ, pos, pos_part}
use awstest.Prelude.Text.{is_upper}
use awstest.Redis.Commands.{doc, value, get, set}
use awstest.Redis.Raising.{ok, command, ◌>>=◌, ◌>>◌}
use awstest.WaitingRoom.{
  Kind, control, observed, Field, absent, bad, number, Mode, auto, manual, ControlDoc, control_doc,
  observed_doc, Room, RoomReply, Settings, kind_of,
}

-- What `_control_snapshot` returns.
pub record Control : Type 0 where
  pub mode : Mode
  pub enabled : Bool
  pub admit_rate : ℕ
  pub message : String

abbrev pub default_control : Settings → Control
default_control settings = record {
  mode = auto;
  enabled = true;
  admit_rate = settings.admit_rate;
  message = "";
}

abbrev mode_of : String → Mode
mode_of s = if is_upper s "MANUAL" then manual else auto

abbrev pub enabled_of : Option Bool → Bool
enabled_of none = true
enabled_of (some b) = b

-- `max(1, int(d.get("admit_rate_per_sec") or QUEUE_ADMIT_RATE_PER_SEC))`, 0 being false
abbrev pub rate_of : ℕ → Field → ℕ
rate_of default absent = max 1 default
rate_of default bad = max 1 default
rate_of default (number n) = if is_zero n then max 1 default else max 1 (pos_part n)
  where
    is_zero : ℤ → Bool
    is_zero (pos k) = k == 0
    is_zero _ = false

unfoldable pub read_control : Settings → ControlDoc → Control
unfolding is_upper
read_control settings d = record {
  mode = mode_of d.mode_text;
  enabled = enabled_of d.enabled;
  admit_rate = rate_of settings.admit_rate d.admit_rate;
  message = d.message;
}

unfoldable pub control_of : Settings → RoomReply → Control
unfolding read_control
control_of settings (value (doc (control_doc d))) = read_control settings d
control_of settings _ = default_control settings

unfoldable pub control_snapshot : Settings → Kind → ℕ → Room Control
unfolding command control_of
control_snapshot settings kind entity_id = do
  raw ← command (get (control kind entity_id))
  ok (control_of settings raw)

abbrev pub mode_text_of : Mode → String
mode_text_of auto = "AUTO"
mode_text_of manual = "MANUAL"

-- The document that a setter writes (its `updated_at_ms` is never read).
abbrev pub write_control : Control → ControlDoc
write_control c = record {
  mode_text = mode_text_of c.mode;
  enabled = some c.enabled;
  admit_rate = number (pos c.admit_rate);
  message = c.message;
}

abbrev or_kept : {A : Type 0} → A → Option A → A
or_kept a none = a
or_kept a (some b) = b

abbrev or_kept_rate : ℕ → Option ℤ → ℕ
or_kept_rate r none = r
or_kept_rate r (some n) = max 1 (pos_part n)

-- `m in ("AUTO", "MANUAL")`, after strip() and upper()
abbrev or_kept_mode : Mode → Option String → Mode
or_kept_mode m none = m
or_kept_mode m (some s) =
    if is_upper s "AUTO" then auto else if is_upper s "MANUAL" then manual else m

unfoldable pub changed : Control → Option String → Option Bool → Option ℤ → Option String → Control
unfolding is_upper
changed c mode enabled rate message = record {
  mode = or_kept_mode c.mode mode;
  enabled = or_kept c.enabled enabled;
  admit_rate = or_kept_rate c.admit_rate rate;
  message = or_kept c.message message;
}

unfoldable pub store_control : Kind → ℕ → Control → Room Control
unfolding command
store_control kind entity_id c = do
  command (set (control kind entity_id) (doc (control_doc (write_control c))) false none)
  ok c

unfoldable pub set_control_full :
    Settings → Kind → ℕ → Option String → Option Bool → Option ℤ → Option String → Room Control
unfolding store_control changed
set_control_full settings kind entity_id mode enabled rate message = do
  cur ← control_snapshot settings kind entity_id
  store_control kind entity_id (changed cur mode enabled rate message)

-- `none` is the answer BAD_REQUEST.
abbrev pub for_room : {A : Type 0} → String → ℕ → (Kind → Room (Option A)) → Room (Option A)
for_room kind entity_id f = elim (kind_of kind) [
  | none ↦ ok none
  | some k ↦ if entity_id == 0 then ok none else f k
]

unfoldable pub set_control :
    Settings → String → ℕ → Option Bool → Option ℤ → Option String → Room (Option Control)
unfolding set_control_full kind_of
set_control settings kind entity_id enabled rate message =
    for_room kind entity_id
      λ k. do c ← set_control_full settings k entity_id none enabled rate message; ok (some c)

-- `data` is a dict of which this code reads one field.
unfoldable pub observe : Settings → String → ℕ → Field → Room (Option ℕ)
unfolding command kind_of
observe settings kind entity_id rate = for_room kind entity_id λ k. do
  command (set (observed k entity_id) (doc (observed_doc rate)) false (some settings.observe_ttl))
  ok (some settings.observe_ttl)

-- `_observe_snapshot`: the field of a fresh observation
abbrev observation : RoomReply → Option Field
observation (value (doc (observed_doc f))) = some f
observation _ = none

unfoldable pub observe_snapshot : Kind → ℕ → Room (Option Field)
unfolding command
observe_snapshot kind entity_id = do
  raw ← command (get (observed kind entity_id))
  ok (observation raw)
