-- ===== src/Worker/Closing.antt =====
-- `_maybe_close_concert_show_if_soldout`: a show that is sold out is closed in concert_shows, and a
-- deadlock is tried again. `tries` is WORKER_DB_DEADLOCK_RETRIES, `attempts` has how each attempt ends.
pub mod Retries
pub mod Returns
use awstest.Prelude.{ℕ, zero, suc, true, List, [], ◌∷◌, ◌==◌, Option, none, some, if◌then◌else◌}
use awstest.Prelude.Int.{ℤ, pos_part}
use awstest.Worker.Recounts.{ConcertShow, Shows}

-- UPDATE and COMMIT succeed, one of them is a deadlock (1213) or fails otherwise, or get_tx_conn raises.
pub data Attempt : Type 0 where
  succeeds deadlocks fails unconnected : Attempt

pub data Closing : Type 0 where
  returned : Shows → Closing
  raised : Closing

close_row : Option ConcertShow → Option ConcertShow
close_row none = none
close_row (some s) = some (record s { closed = true })

-- UPDATE concert_shows SET status = 'CLOSED' WHERE show_id = …
unfoldable pub close_show : ℕ → Shows → Shows
unfolding close_row
close_show show_id shows j = if j == show_id then close_row (shows j) else shows j

-- The number is that of the tries that are left; the last deadlock is given up.
try_close : ℕ → List Attempt → ℕ → Shows → Closing
unfolding close_show
try_close zero attempts show_id shows = returned shows
try_close (suc left) [] show_id shows = returned (close_show show_id shows)
try_close (suc left) (succeeds ∷ attempts) show_id shows = returned (close_show show_id shows)
try_close (suc left) (fails ∷ attempts) show_id shows = returned shows
try_close (suc left) (unconnected ∷ attempts) show_id shows = raised
try_close (suc left) (deadlocks ∷ attempts) show_id shows =
    let again = try_close left attempts show_id shows in if left == 0 then returned shows else again

unfoldable pub maybe_close_show : ℕ → ℕ → ℤ → List Attempt → Shows → Closing
unfolding try_close
maybe_close_show tries show_id remain_count_after attempts shows =
    if show_id == 0
    then returned shows
    else if pos_part remain_count_after == 0
    then try_close tries attempts show_id shows
    else returned shows
