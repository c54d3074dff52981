-- ===== src/Worker/Recounts.antt =====
-- `_sync_one_concert_show_remain_from_redis`: the remain counter of the read cache goes to the table
-- concert_shows. `statements` has the failures of the
-- connection, SELECT, UPDATE and COMMIT in turn.
pub mod Agreeing
use awstest.Prelude.{
  ℕ, min, Bool, true, false, Option, none, some, [], ◌∷◌, ltb, ◌==◌, if◌then◌else◌,
}
use awstest.Prelude.Int.{ℤ, pos, pos_part}
use awstest.Redis.Commands.{num, doc, set_of, nil, value, get}
use awstest.Redis.Program.{Faults}
use awstest.Redis.Raising.{ok, raise, command, or_else, ◌>>=◌}
use awstest.Cache.{remain}
use awstest.Cache.Safe.{CacheReply}
use awstest.Worker.{Work}

pub record ConcertShow : Type 0 where
  pub concert_id : ℕ
  pub seat_rows : ℕ
  pub seat_cols : ℕ
  pub total_count : ℕ
  pub remain_count : ℕ
  pub closed : Bool

abbrev pub Shows : Type 0
Shows = ℕ → Option ConcertShow

-- `max(0, _to_int(raw, 0))`, unless the key is missing
abbrev pub counter_of : CacheReply → Option ℕ
counter_of nil = none
counter_of (value (num n)) = some (pos_part n)
counter_of r = some 0

-- An exception of GET is no counter.
unfoldable pub read_counter : ℕ → Work (Option ℕ)
unfolding command
read_counter show_id = or_else (do raw ← command (get (remain show_id)); ok (counter_of raw)) none

-- `if total > 0: redis_remain = min(redis_remain, total)`
abbrev pub bounded : ℕ → ℕ → ℕ
bounded total n = if ltb 0 total then min n total else n

-- Whether a row was updated, and the table.
updated : Faults → ℕ → ℕ → ConcertShow → Shows → Bool × Shows
updated (true ∷ fs) show_id n s shows = (false, shows)
updated (false ∷ true ∷ fs) show_id n s shows = (false, shows)
updated fs show_id n s shows = (
  true,
  λ j. if j == show_id then some (record s { remain_count = n; closed = n == 0 }) else shows j,
)

compared : Faults → ℕ → ℕ → Option ConcertShow → Shows → Bool × Shows
unfolding updated
compared fs show_id n none shows = (false, shows)
compared fs show_id n (some s) shows =
    if s.remain_count == bounded s.total_count n
    then (false, shows)
    else updated fs show_id (bounded s.total_count n) s shows

selected : Faults → ℕ → ℕ → Shows → Bool × Shows
unfolding compared
selected (true ∷ fs) show_id n shows = (false, shows)
selected (false ∷ fs) show_id n shows = compared fs show_id n (shows show_id) shows
selected [] show_id n shows = compared [] show_id n (shows show_id) shows

-- An exception of get_tx_conn goes on.
synced : Faults → ℕ → Option ℕ → Shows → Work (Bool × Shows)
unfolding selected
synced fs show_id none shows = ok (false, shows)
synced (true ∷ fs) show_id (some n) shows = raise
synced (false ∷ fs) show_id (some n) shows = ok (selected fs show_id n shows)
synced [] show_id (some n) shows = ok (selected [] show_id n shows)

unfoldable pub sync_one_concert_show_remain : Faults → ℕ → Shows → Work (Bool × Shows)
unfolding read_counter synced
sync_one_concert_show_remain statements show_id shows =
    if show_id == 0
    then ok (false, shows)
    else do counter ← read_counter show_id; synced statements show_id counter shows
