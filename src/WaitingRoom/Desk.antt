-- ===== src/WaitingRoom/Desk.antt =====
-- The operators' side: `reset` and `metrics`.
use awstest.Prelude.{ℕ, true, false, String, Option, some, List, [], ◌∷◌, ◌++◌, map, length, leb}
use awstest.Prelude.Int.{ℤ, pos, pos_part, ◌+ℤ◌, ◌-ℤ◌}
use awstest.Redis.Commands.{delete, integer}
use awstest.Redis.Raising.{ok, execute, or_else, rescue, ◌>>=◌}
use awstest.WaitingRoom.{
  Kind, Key, enq, done, clock, control, observed, Field, Room, RoomReply, Settings, kind_of,
}
use awstest.WaitingRoom.Control.{Control, control_snapshot, observe_snapshot, for_room}
use awstest.WaitingRoom.Rate.{rps_total, count_at, window}
use awstest.WaitingRoom.Gate.{advance_done}

sum_of : List RoomReply → ℤ
sum_of [] = pos 0
sum_of (integer n ∷ rs) = n +ℤ sum_of rs
sum_of (r ∷ rs) = sum_of rs

-- DEL of several keys is one request, which answers how many there were.
delete_all : List Key → Room ℤ
unfolding execute sum_of
delete_all ks = do rs ← execute (map delete ks); ok (sum_of rs)

delete_rest : List Key → ℤ → Room ℤ
unfolding delete_all
delete_rest [] n = ok n
delete_rest (k ∷ ks) n = do m ← delete_all (k ∷ ks); ok (n +ℤ m)

-- The keys that scan_iter answers, in batches.
unfoldable pub delete_in_batches : ℕ → List Key → ℤ → List Key → Room ℤ
unfolding delete_rest
delete_in_batches limit batch n [] = delete_rest batch n
delete_in_batches limit batch n (k ∷ ks) = elim (leb limit (length (batch ++ k ∷ []))) [
  | true ↦ (do m ← delete_all (batch ++ k ∷ []); delete_in_batches limit [] (n +ℤ m) ks)
  | false ↦ delete_in_batches limit (batch ++ k ∷ []) n ks
]

pub record Deleted : Type 0 where
  pub fixed : ℤ
  pub rps : ℤ

abbrev pub fixed_keys : Kind → ℕ → List Key
fixed_keys kind entity_id =
    enq kind entity_id
    ∷ done kind entity_id
    ∷ clock kind entity_id
    ∷ control kind entity_id
    ∷ observed kind entity_id
    ∷ []

-- `rps_keys` is what scan_iter answers.
unfoldable pub reset : List Key → String → ℕ → Room (Option Deleted)
unfolding delete_in_batches kind_of
reset rps_keys kind entity_id = for_room kind entity_id λ k. do
  fixed ← or_else (delete_all (fixed_keys k entity_id)) (pos 0)
  rps ← or_else (delete_in_batches 500 [] (pos 0) rps_keys) (pos 0)
  ok (some (record { fixed = fixed; rps = rps }))

-- `enter_rps_est` is the quotient of `entered` and the window, rounded.
pub record Metrics : Type 0 where
  pub enqueued : ℤ
  pub admitted : ℤ
  pub backlog : ℕ
  pub entered : ℤ
  pub seconds : ℕ
  pub observe : Option Field
  pub control : Control

unfoldable pub metrics : Settings → String → ℕ → ℕ → ℕ → ℕ → Room (Option Metrics)
unfolding control_snapshot observe_snapshot count_at advance_done rps_total kind_of
metrics settings kind entity_id advance_sec advance_ms now_sec = for_room kind entity_id λ k. do
  c ← control_snapshot settings k entity_id
  obs ← observe_snapshot k entity_id
  enqueued ← count_at (enq k entity_id)
  admitted ←
      rescue (advance_done settings k entity_id advance_sec advance_ms)
        (count_at (done k entity_id))
  entered ← rps_total settings k entity_id now_sec
  ok (
      some (record {
        enqueued = enqueued;
        admitted = admitted;
        backlog = pos_part (enqueued -ℤ admitted);
        entered = entered;
        seconds = window settings;
        observe = obs;
        control = c;
      }))
