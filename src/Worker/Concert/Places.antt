-- ===== src/Worker/Concert/Places.antt =====
-- Seats that are free and different: their rows are inserted.
use awstest.Prelude.{
  ℕ, ◌≡◌, refl, ap, ap₂, ◌∙◌, Bool, true, false, List, [], ◌∷◌, ◌==◌, ◌&&◌, ◌||◌, not, length,
  arith, if◌then◌else◌,
}
use awstest.Cache.{Seat, same_seat, has_seat}
use awstest.Worker.Concert.Tables.{
  ConcertSeat, ConcertTables, ok, raise, duplicate_key, is_taken, insert_rows, with_rows,
  insert_concert_seats,
}
use awstest.Worker.Concert.Frames.{rows_of}

-- One of the seats is an active seat of the show.
unfoldable pub any_taken : ℕ → List Seat → List ConcertSeat → Bool
any_taken show_id [] rows = false
any_taken show_id (s ∷ ss) rows = is_taken show_id s rows || any_taken show_id ss rows

-- No seat is there twice.
unfoldable pub no_twice : List Seat → Bool
unfolding has_seat
no_twice [] = true
no_twice (s ∷ ss) = not (has_seat s ss) && no_twice ss

neither : (a b : Bool) → (a || b) ≡ false → (a ≡ false) × (b ≡ false)
neither true b h = absurd (clash h)
  where
    clash : true ≡ false → ⊥
    clash p = cc
neither false b h = (refl, h)

both : (a b : Bool) → (not a && b) ≡ true → (a ≡ false) × (b ≡ true)
both true b h = absurd (clash h)
  where
    clash : false ≡ true → ⊥
    clash p = cc
both false b h = (refl, h)

module _ (b show_id : ℕ) where
  abbrev row : Seat → ConcertSeat
  row s = record { booking_id = b; show_id = show_id; seat = s }

  -- A row for another seat takes none of these.
  still_free :
      (s : Seat) (ss : List Seat) (rows : List ConcertSeat)
      → has_seat s ss ≡ false
      → any_taken show_id ss rows ≡ false
      → any_taken show_id ss (row s ∷ rows) ≡ false
  unfolding has_seat any_taken is_taken
  still_free s [] rows h g = refl
  still_free s (x ∷ ss) rows h g =
      let apart = neither (same_seat s x) (has_seat s ss) h in
      let free = neither (is_taken show_id x rows) (any_taken show_id ss rows) g in
      ap₂ (λ y z. y || z)
        (ap₂ (λ y z. (show_id == show_id && y) || z) apart.0 free.0
          ∙ neither_row (show_id == show_id))
        (still_free s ss rows apart.1 free.1)
    where
      neither_row : (y : Bool) → ((y && false) || false) ≡ false
      neither_row true = refl
      neither_row false = refl

  insert_rows-free :
      (ss : List Seat) (rows : List ConcertSeat)
      → any_taken show_id ss rows ≡ false
      → no_twice ss ≡ true
      → insert_rows b show_id ss rows ≡ ok (rows_of b show_id ss rows)
  unfolding any_taken no_twice insert_rows rows_of
  insert_rows-free [] rows h g = refl
  insert_rows-free (s ∷ ss) rows h g =
      let free = neither (is_taken show_id s rows) (any_taken show_id ss rows) h in
      let apart = both (has_seat s ss) (no_twice ss) g in
      ap (λ x. if x then raise duplicate_key else insert_rows b show_id ss (row s ∷ rows)) free.0
      ∙ insert_rows-free ss (row s ∷ rows) (still_free s ss rows apart.0 free.1) apart.1

  pub insert_seats-free :
      (ss : List Seat) (t : ConcertTables)
      → (length ss == 0) ≡ false
      → any_taken show_id ss t.active ≡ false
      → no_twice ss ≡ true
      → insert_concert_seats b show_id ss t
        ≡ ok (record t { active = rows_of b show_id ss t.active })
  unfolding insert_concert_seats
  insert_seats-free [] t e h g = absurd (ground arith)
  insert_seats-free (s ∷ ss) t e h g = ap (with_rows t) (insert_rows-free (s ∷ ss) t.active h g)
