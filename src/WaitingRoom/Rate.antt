-- ===== src/WaitingRoom/Rate.antt =====
-- The rate of admission in AUTO mode: `_rps_estimate` and `_auto_effective_rate`. The source divides
-- floats: requests per second are a sum over a window of seconds, which is compared here with the
-- bound times the window. Both agree while the numbers are below 2 ^ 53.
pub mod Range
use awstest.Prelude.{
  ℕ, zero, suc, ◌-◌, ◌*◌, ◌/◌, Bool, true, false, not, ◌&&◌, ◌||◌, Option, none, some, List, [],
  ◌∷◌, map, min, max, leb, ltb, ◌==◌, if◌then◌else◌,
}
use awstest.Prelude.Int.{ℤ, pos, pos_part, ltb_ℤ, ◌+ℤ◌, ◌-ℤ◌}
use awstest.Redis.Commands.{get}
use awstest.Redis.Raising.{ok, execute, command, or_else, ◌>>=◌, ◌>>◌}
use awstest.WaitingRoom.{
  Kind, Key, enq, done, rps, Field, absent, bad, number, Doc, Member, Room, RoomReply, Settings,
  int_of, int_or_0,
}
use awstest.WaitingRoom.Control.{observe_snapshot}

-- `[now_sec - i for i in range(w)]`
abbrev pub seconds : ℕ → ℕ → List ℕ
seconds zero now_sec = []
seconds (suc w) now_sec = now_sec ∷ seconds w (now_sec - 1)

abbrev pub window : Settings → ℕ
window settings = max 1 settings.window_sec

unfoldable pub total : List RoomReply → ℤ
total [] = pos 0
total (r ∷ rs) = int_or_0 (int_of r) +ℤ total rs

-- The sum of the window; an exception of MGET is the rate zero.
unfoldable pub rps_total : Settings → Kind → ℕ → ℕ → Room ℤ
unfolding execute total
rps_total settings kind entity_id now_sec =
    or_else
      (do
        vals ←
            execute (map (λ sec. get (rps kind entity_id sec)) (seconds (window settings) now_sec))
        ok (total vals))
      (pos 0)

abbrev pub leb_ℤ : ℤ → ℤ → Bool
leb_ℤ a b = not (ltb_ℤ b a)

abbrev pub lowest : Settings → ℕ
lowest settings = max 1 settings.min_rate

abbrev pub highest : Settings → ℕ
highest settings = max (lowest settings) settings.max_rate

abbrev clamped : Settings → ℕ → ℕ
clamped settings r = max (lowest settings) (min (highest settings) r)

-- The decision that needs no observation; `sum` is over the window.
unfoldable pub own_rate : Settings → ℤ → ℕ → ℕ
own_rate settings sum backlog =
    let w = window settings in
    let drain = max 10 settings.drain_sec in
    let congested =
      leb_ℤ (pos (max 1 settings.queue_on_rps * w)) sum || leb settings.queue_on_backlog backlog in
    let by_backlog = if ltb 0 backlog then backlog / drain else highest settings in
    if leb_ℤ sum (pos (max 1 settings.bypass_rps * w)) && leb backlog settings.bypass_backlog
    then highest settings
    else if congested && leb_ℤ (pos (500 * w)) sum
    then lowest settings
    else if congested && leb_ℤ (pos (200 * w)) sum
    then clamped settings (max (lowest settings) (by_backlog / 2))
    else clamped settings (max (lowest settings) by_backlog)

-- The rate that an observation recommends.
unfoldable pub observed_rate : Settings → Option Field → Option ℕ
observed_rate settings none = none
observed_rate settings (some absent) = none
observed_rate settings (some bad) = none
observed_rate settings (some (number r)) =
    if ltb_ℤ (pos 0) r then some (clamped settings (pos_part r)) else none

-- `try: … int(get(key) or 0) except: 0`
unfoldable pub count_at : Key → Room ℤ
unfolding command
count_at k = or_else (do r ← command (get k); ok (int_or_0 (int_of r))) (pos 0)

decide : Settings → Kind → ℕ → ℕ → ℕ → Option ℕ → Room ℕ
unfolding rps_total own_rate
decide settings kind entity_id now_sec backlog (some r) = ok r
decide settings kind entity_id now_sec backlog none = do
  sum ← rps_total settings kind entity_id now_sec
  ok (own_rate settings sum backlog)

unfoldable pub auto_effective_rate : Settings → Kind → ℕ → ℕ → Room ℕ
unfolding count_at observe_snapshot decide observed_rate
auto_effective_rate settings kind entity_id now_sec = do
  enqueued ← count_at (enq kind entity_id)
  admitted ← count_at (done kind entity_id)
  obs ← observe_snapshot kind entity_id
  decide settings kind entity_id now_sec (pos_part (enqueued -ℤ admitted))
      (observed_rate settings obs)
