-- ===== src/Worker/Closing/Retries.antt =====
-- How many deadlocks the closing of a show survives.
use awstest.Prelude.{
  ℕ, zero, suc, ◌≡◌, ◌≢◌, refl, ap, ◌∙◌, Bool, true, false, List, [], ◌∷◌, ◌++◌, ltb, ◌==◌, ◌&&◌,
  Option, none, some, arith, if◌then◌else◌,
}
use awstest.Prelude.Int.{ℤ, pos_part}
use mathlib.Core.Option as Option
use awstest.Worker.Recounts.{ConcertShow, Shows}
use awstest.Worker.Closing.{
  Attempt, succeeds, deadlocks, Closing, returned, close_row, close_show, try_close,
  maybe_close_show,
}

abbrev pub many_deadlocks : ℕ → List Attempt
many_deadlocks zero = []
many_deadlocks (suc n) = deadlocks ∷ many_deadlocks n

module _ (show_id : ℕ) (rest : List Attempt) (shows : Shows) where
  abbrev closed_if : Bool → Closing
  closed_if b = returned (if b then close_show show_id shows else shows)

  try_close-deadlocks :
      (tries n : ℕ)
      → try_close tries (many_deadlocks n ++ (succeeds ∷ rest)) show_id shows
        ≡ closed_if (ltb n tries)
  unfolding try_close
  try_close-deadlocks zero n = ap closed_if (beyond n)
    where
      beyond : (n : ℕ) → false ≡ ltb n 0
      beyond n = ground arith
  try_close-deadlocks (suc k) zero = ap closed_if (within k)
    where
      within : (k : ℕ) → true ≡ ltb 0 (suc k)
      within k = ground arith
  try_close-deadlocks (suc zero) (suc n) = ap closed_if (last n)
    where
      last : (n : ℕ) → false ≡ ltb (suc n) 1
      last n = ground arith
  try_close-deadlocks (suc (suc k)) (suc n) =
      ap
        (λ b.
          if b
          then returned shows
          else try_close (suc k) (many_deadlocks n ++ (succeeds ∷ rest)) show_id shows)
        (unfinished k)
      ∙ try_close-deadlocks (suc k) n
      ∙ ap closed_if (shifted n (suc k))
    where
      unfinished : (k : ℕ) → (suc k == 0) ≡ false
      unfinished k = ground arith

      shifted : (n k : ℕ) → ltb n k ≡ ltb (suc n) (suc k)
      shifted n k = ground arith

abbrev pub as_closed : ConcertShow → ConcertShow
as_closed s = record s { closed = true }

close_show-row :
    (show_id : ℕ) (shows : Shows) (b : Bool) (j : ℕ)
    → (if b then close_show show_id shows else shows) j
      ≡ (if j == show_id && b then Option.map as_closed (shows j) else shows j)
unfolding close_show close_row
close_show-row show_id shows true j = row (j == show_id) (shows j)
  where
    row :
        (x : Bool) (o : Option ConcertShow)
        → (if x then close_row o else o) ≡ (if x && true then Option.map as_closed o else o)
    row true none = refl
    row true (some s) = refl
    row false o = refl
close_show-row show_id shows false j = row (j == show_id)
  where
    row : (x : Bool) → shows j ≡ (if x && false then Option.map as_closed (shows j) else shows j)
    row true = refl
    row false = refl

-- If the show number is not 0 and nothing remains, and the first attempts are deadlocks before one
-- that succeeds, then the function returns, and the table it leaves is as it was, except that the
-- row of the show (if there is one) is closed if the deadlocks are fewer than the tries.
pub close-survives :
    (tries n show_id : ℕ) (remain_count_after : ℤ) (rest : List Attempt) (shows : Shows)
    → show_id ≢ 0
    → pos_part remain_count_after ≡ 0
    → (t : Shows) × (maybe_close_show tries show_id remain_count_after
          (many_deadlocks n ++ (succeeds ∷ rest))
          shows
        ≡ returned t)
      × ((j : ℕ)
          → t j ≡ (if j == show_id && ltb n tries then Option.map as_closed (shows j) else shows j))
unfolding maybe_close_show
close-survives tries n show_id r rest shows h e = (
  if ltb n tries then close_show show_id shows else shows,
  opened (show_id == 0) (pos_part r == 0) refl refl,
  close_show-row show_id shows (ltb n tries),
)
  where
    goal : Closing
    goal = returned (if ltb n tries then close_show show_id shows else shows)

    opened :
        (b c : Bool)
        → (show_id == 0) ≡ b
        → (pos_part r == 0) ≡ c
        → (if b
            then returned shows
            else if c
            then try_close tries (many_deadlocks n ++ (succeeds ∷ rest)) show_id shows
            else returned shows)
          ≡ goal
    opened true c p q = absurd (ground (arith, h))
    opened false false p q = absurd (ground (arith, e))
    opened false true p q = try_close-deadlocks show_id rest shows tries n
