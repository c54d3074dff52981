-- ===== src/Worker/Closing/Returns.antt =====
-- The closing of a show returns, if each attempt gets a connection.
use awstest.Prelude.{
  ℕ, zero, suc, ◌≡◌, refl, Bool, true, false, List, [], ◌∷◌, All, ◌==◌, if◌then◌else◌,
}
use awstest.Prelude.Int.{ℤ, pos_part}
use awstest.Worker.Recounts.{Shows}
use awstest.Worker.Closing.{
  Attempt, succeeds, deadlocks, fails, unconnected, Closing, returned, close_show, try_close,
  maybe_close_show,
}

abbrev pub Connects : Attempt → Type 0
Connects succeeds = Unit
Connects deadlocks = Unit
Connects fails = Unit
Connects unconnected = ⊥

abbrev Returned : Closing → Type 0
Returned x = (shows : Shows) × (x ≡ returned shows)

either-Returned :
    (b : Bool) (x y : Closing) → Returned x → Returned y → Returned (if b then x else y)
either-Returned true x y h g = h
either-Returned false x y h g = g

module _ (show_id : ℕ) (shows : Shows) where
  try_close-returns :
      (left : ℕ) (attempts : List Attempt)
      → All Connects attempts
      → Returned (try_close left attempts show_id shows)
  unfolding try_close
  try_close-returns zero attempts h = (shows, refl)
  try_close-returns (suc left) [] h = (close_show show_id shows, refl)
  try_close-returns (suc left) (succeeds ∷ attempts) h = (close_show show_id shows, refl)
  try_close-returns (suc left) (fails ∷ attempts) h = (shows, refl)
  try_close-returns (suc left) (unconnected ∷ attempts) h = absurd h.0
  try_close-returns (suc left) (deadlocks ∷ attempts) h =
      either-Returned (left == 0) (returned shows) (try_close left attempts show_id shows)
        (shows, refl) (try_close-returns left attempts h.1)

  pub close-returns :
      (tries : ℕ) (n : ℤ) (attempts : List Attempt)
      → All Connects attempts
      → Returned (maybe_close_show tries show_id n attempts shows)
  unfolding maybe_close_show
  close-returns tries n attempts h =
      either-Returned (show_id == 0) (returned shows) _ (shows, refl)
        (either-Returned (pos_part n == 0) (try_close tries attempts show_id shows) (returned shows)
          (try_close-returns tries attempts h) (shows, refl))
