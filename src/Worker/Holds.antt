-- ===== src/Worker/Holds.antt =====
-- The end of a hold: `_finalize_concert_hold_by_ref`, `_adjust_concert_remain` and
-- `_adjust_concert_pending`. The seats of a hold document are the pairs that it spells "row-column".
pub mod Ownership
pub mod Returning
use awstest.Prelude.{
  ℕ, zero, suc, String, Bool, true, false, Option, none, some, List, [], ◌∷◌, ◌++◌, map, ltb, ◌==◌,
  ◌&&◌, str_eq, if◌then◌else◌,
}
use awstest.Prelude.Int.{ℤ, pos, pos_part, neg_part}
use awstest.Redis.Commands.{num, doc, set_of, value, get, set, delete, incrby, persist, srem}
use awstest.Redis.Program.{request, ret}
use awstest.Redis.Raising.{ok, command, execute, or_else, attempt, try_command, ◌>>=◌, ◌>>◌}
use awstest.Cache.{
  Key, seat, remain, pending, hold, hold_rev, hold_meta, snapshot, Seat, HoldMeta, text, meta,
  confirmed_seats, seat_member,
}
use awstest.Cache.Safe.{CacheCommand, CacheReply}
use awstest.SeatHold.Counter.{adjust_script}
use awstest.SeatHold.Hold.{holds}
use awstest.Worker.{Work}

-- `_parse_seat_key`: both numbers are positive
abbrev pub seats_of : List Seat → List Seat
seats_of [] = []
seats_of (s ∷ ss) = if ltb 0 s.0 && ltb 0 s.1 then s ∷ seats_of ss else seats_of ss

-- The script runs, and what it answers or raises is dropped.
adjust : Key → ℤ → Work (Unit {0})
unfolding adjust_script
adjust k delta = request (adjust_script k delta) (λ rs. ret (some tt))

unfoldable pub adjust_concert_remain : ℕ → ℤ → Work (Unit {0})
unfolding adjust
adjust_concert_remain show_id delta =
    if show_id == 0
    then ok tt
    else if pos_part delta == 0 && neg_part delta == 0
    then ok tt
    else adjust (remain show_id) delta

unfoldable pub adjust_concert_pending : ℕ → ℤ → Work (Unit {0})
unfolding adjust
adjust_concert_pending show_id delta =
    if show_id == 0
    then ok tt
    else if pos_part delta == 0 && neg_part delta == 0
    then ok tt
    else adjust (pending show_id) delta

-- The hold document that a reply has.
abbrev meta_of : CacheReply → Option HoldMeta
meta_of (value (doc (meta m))) = some m
meta_of _ = none

-- What becomes of one seat of this reference.
abbrev pub settle_seat : ℕ → Bool → Seat → List CacheCommand
settle_seat show_id true s = delete (seat show_id s) ∷ srem (hold show_id) (seat_member s) ∷ []
settle_seat show_id false s =
    set (seat show_id s) (doc (text "CONFIRMED")) false none
    ∷ persist (seat show_id s)
    ∷ srem (hold show_id) (seat_member s)
    ∷ []

unfoldable pub settle_commands :
    ℕ → String → Bool → List Seat → List CacheReply → List CacheCommand × ℕ
settle_commands show_id ref restores [] vs = ([], 0)
settle_commands show_id ref restores (s ∷ ss) [] = ([], 0)
settle_commands show_id ref restores (s ∷ ss) (v ∷ vs) =
    let (cs, n) = settle_commands show_id ref restores ss vs in
    if holds ref v then (settle_seat show_id restores s ++ cs, suc n) else (cs, n)

settled : ℕ → String → List CacheCommand × ℕ → Work ℕ
unfolding execute try_command
settled show_id ref plan = do
  execute (plan.0 ++ delete (hold_meta ref) ∷ [])
  try_command (incrby (hold_rev show_id) (pos 1))
  ok plan.1

settle : ℕ → String → Bool → List Seat → Work ℕ
unfolding execute settle_commands settled
settle show_id ref restores ss = do
  existing ← execute (map get (map (seat show_id) ss))
  settled show_id ref (settle_commands show_id ref restores ss existing)

after_settling : ℕ → Bool → Option ℕ → Work (Option ℕ)
unfolding try_command adjust_concert_remain
after_settling show_id restores none = ok (some 0)
after_settling show_id restores (some n) = do
  try_command (delete (snapshot show_id))
  if restores && ltb 0 n then adjust_concert_remain show_id (pos n) else ok tt
  ok (some n)

finalize_seats : ℕ → String → Bool → List Seat → Work (Option ℕ)
unfolding settle after_settling try_command
finalize_seats show_id ref restores [] = do try_command (delete (hold_meta ref)); ok (some 0)
finalize_seats show_id ref restores (s ∷ ss) = do
  n ← attempt (settle show_id ref restores (s ∷ ss))
  after_settling show_id restores n

finalize_meta : String → Bool → Option HoldMeta → Work (Option ℕ)
unfolding finalize_seats
finalize_meta ref restores none = ok none
finalize_meta ref restores (some m) =
    if m.show_id == 0 then ok none else finalize_seats m.show_id ref restores (seats_of m.seats)

unfoldable pub finalize_concert_hold_by_ref : String → Bool → Work (Option ℕ)
unfolding command finalize_meta
finalize_concert_hold_by_ref ref restores = if str_eq ref "" then ok none else do
  found ← or_else (do raw ← command (get (hold_meta ref)); ok (meta_of raw)) none
  finalize_meta ref restores found
