-- ===== src/WaitingRoom.antt =====
-- services/ticketing-was/waiting_room.py: the waiting room before a booking. Its keys stand in the
-- booking database (cache/elasticache_booking_client.py, a redis-py client that raises). The key
-- formats are constructors. A JSON document that a caller or an operator writes may lack a field or
-- hold something that int() refuses: `Field`. A reference and a permit are written by this file
-- alone, so their documents have all fields.
pub mod Control
pub mod Rate
pub mod Gate
pub mod Tickets
pub mod Desk
mod Examples
use awstest.Prelude.{
  ℕ, String, Bool, Option, none, some, true, false, if◌then◌else◌, ℕ_discrete, String-discrete,
}
use awstest.Prelude.Int.{ℤ, pos}
use awstest.Prelude.Text.{is_lower}
use awstest.Redis.Commands.{
  Value, num, doc, set_of, Reply, value, integer, nil, flag, items, wrong_type,
}
use awstest.Redis.Raising.{Raising}

pub data Kind : Type 0 where
  concert theater : Kind

pub data Key : Type 0 where
  enq done clock control observed : Kind → ℕ → Key
  rps : Kind → ℕ → ℕ → Key
  ticket permit : String → Key

pub data Field : Type 0 where
  absent bad : Field
  number : ℤ → Field

pub data Mode : Type 0 where
  auto manual : Mode

-- The document under a control key; `mode_text` is `str(d.get("mode") or "")`.
pub record ControlDoc : Type 0 where
  pub mode_text : String
  pub enabled : Option Bool
  pub admit_rate : Field
  pub message : String

pub record Ticket : Type 0 where
  pub kind : Kind
  pub entity_id : ℕ
  pub user_id : ℕ
  pub seq : ℤ
  pub created_at_ms : ℕ

pub record Permit : Type 0 where
  pub kind : Kind
  pub entity_id : ℕ
  pub user_id : ℕ
  pub issued_at_ms : ℕ

-- `garbage` is a text that json.loads refuses, `other` one that is no dict.
pub data Doc : Type 0 where
  control_doc : ControlDoc → Doc
  observed_doc : Field → Doc
  ticket_doc : Ticket → Doc
  permit_doc : Permit → Doc
  garbage other : Doc

-- Nothing here is a set.
pub data Member : Type 0 where

unfoldable pub Kind-discrete : Discrete Kind
Kind-discrete = hlevel

unfoldable pub Key-discrete : Discrete Key
Key-discrete = hlevel (ℕ_discrete, String-discrete)

unfoldable pub Member-discrete : Discrete Member
Member-discrete = λ a b. elim a [ ]

abbrev pub Room : Type 0 → Type 0
Room = Raising Key Doc Member

abbrev pub RoomValue : Type 0
RoomValue = Value Doc Member

abbrev pub RoomReply : Type 0
RoomReply = Reply Doc Member

-- The settings of services/ticketing-was/config.py
pub record Settings : Type 0 where
  pub admit_rate : ℕ
  pub permit_ttl : ℕ
  pub ref_ttl : ℕ
  pub counter_ttl : ℕ
  pub drain_sec : ℕ
  pub max_rate : ℕ
  pub min_rate : ℕ
  pub window_sec : ℕ
  pub observe_ttl : ℕ
  pub bypass_backlog : ℕ
  pub bypass_rps : ℕ
  pub queue_on_backlog : ℕ
  pub queue_on_rps : ℕ

-- `str(kind or "").strip().lower()`, if it is one of the two kinds
unfoldable pub kind_of : String → Option Kind
unfolding is_lower
kind_of s =
    if is_lower s "concert"
    then some concert
    else if is_lower s "theater"
    then some theater
    else none

-- `int(raw or 0)` of what GET answers; none is its exception
abbrev pub int_of : RoomReply → Option ℤ
int_of (value (num n)) = some n
int_of (value (doc d)) = none
int_of (value (set_of ms)) = none
int_of nil = some (pos 0)
int_of (integer n) = some n
int_of (flag b) = none
int_of (items ms) = none
int_of wrong_type = none

-- with `except Exception: … = 0`
abbrev pub int_or_0 : Option ℤ → ℤ
int_or_0 none = pos 0
int_or_0 (some n) = n
