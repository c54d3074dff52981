-- ===== src/Booking/Results.antt =====
-- services/worker-svc/main.py: `store_result` and `store_failure_result`.
pub mod Keeping
pub mod Stored
pub mod Returning
use awstest.Prelude.{ℕ, String, Bool, true, false, Option, none, some, [], ◌∷◌, ◌==◌, if◌then◌else◌}
use awstest.Prelude.Int.{pos}
use awstest.Redis.Commands.{num, doc, set_of, value, get, set, delete, incrby, expire}
use awstest.Redis.Raising.{ok, command, try_command, or_else, ◌>>=◌, ◌>>◌}
use awstest.Booking.{
  BookingType, Key, result, queued, done, Verdict, booked, failed, Doc, verdict_doc, queued_doc,
  garbage, Member, Desk, DeskReply, Settings,
}

keep_counter : Settings → BookingType → ℕ → Desk (Unit {0})
unfolding try_command
keep_counter settings booking_type entity_id =
    if settings.counter_ttl == 0
    then ok tt
    else try_command (expire (done booking_type entity_id) settings.counter_ttl)

count_done : Settings → Option BookingType → ℕ → Desk (Unit {0})
unfolding command keep_counter
count_done settings none entity_id = ok tt
count_done settings (some t) entity_id =
    if entity_id == 0
    then ok tt
    else or_else (do command (incrby (done t entity_id) (pos 1)); keep_counter settings t entity_id)
        tt

pub tidy : Settings → String → Option BookingType → ℕ → Desk (Unit {0})
unfolding try_command count_done
tidy settings ref booking_type entity_id = do
  try_command (delete (queued ref))
  count_done settings booking_type entity_id

unfoldable pub store_result : Settings → String → Verdict → Option BookingType → ℕ → Desk (Unit {0})
unfolding command tidy
store_result settings ref v booking_type entity_id = do
  command (set (result ref) (doc (verdict_doc v)) false (some settings.result_ttl))
  tidy settings ref booking_type entity_id

-- `raw and json.loads(raw).get("ok") is True`
abbrev pub is_ok : DeskReply → Bool
is_ok (value (doc (verdict_doc (booked b)))) = true
is_ok _ = false

unless_kept : Settings → String → Verdict → Option BookingType → ℕ → Bool → Desk (Unit {0})
unfolding store_result
unless_kept settings ref v booking_type entity_id kept =
    if kept then ok tt else store_result settings ref v booking_type entity_id

unfoldable pub store_failure_result :
    Settings → String → Verdict → Option BookingType → ℕ → Desk (Unit {0})
unfolding command unless_kept
store_failure_result settings ref v booking_type entity_id = do
  kept ← or_else (do raw ← command (get (result ref)); ok (is_ok raw)) false
  unless_kept settings ref v booking_type entity_id kept
