-- ===== src/Worker/Holds/Returning.antt =====
-- The end of a hold never raises.
use awstest.Prelude.{
  ℕ, String, refl, Bool, Option, none, some, List, [], ◌∷◌, ltb, ◌==◌, ◌&&◌, str_eq, if◌then◌else◌,
}
use awstest.Prelude.Int.{ℤ, pos, pos_part, neg_part}
use awstest.Redis.Commands.{get, delete}
use awstest.Redis.Returns.{Returns}
use awstest.Redis.Raising.{attempt, or_else, command, try_command, ok as give, ◌>>=◌}
use awstest.Redis.Raising.Getting.{
  Gets, or_else-Gets, try_command-Gets, bind-Gets, if-Gets, attempt-Gets,
}
use awstest.Cache.{Key, remain, pending, HoldMeta, Seat, snapshot, hold_meta}
use awstest.Worker.{Work}
use awstest.Worker.Holds.{
  adjust, adjust_concert_remain, adjust_concert_pending, meta_of, settle, after_settling,
  finalize_seats, finalize_meta, finalize_concert_hold_by_ref, seats_of,
}

abbrev pub NeverRaises : {A : Type 0} → Work A → Type 0
NeverRaises m = Returns Gets m

adjust-returns : (k : Key) (delta : ℤ) → NeverRaises (adjust k delta)
unfolding adjust
adjust-returns k delta = λ rs. (tt, refl)

pub adjust_remain-returns :
    (show_id : ℕ) (delta : ℤ) → NeverRaises (adjust_concert_remain show_id delta)
unfolding adjust_concert_remain
adjust_remain-returns show_id delta =
    if-Gets (show_id == 0) (give tt) _ (tt, refl)
      (if-Gets (pos_part delta == 0 && neg_part delta == 0) (give tt)
        (adjust (remain show_id) delta) (tt, refl) (adjust-returns (remain show_id) delta))

pub adjust_pending-returns :
    (show_id : ℕ) (delta : ℤ) → NeverRaises (adjust_concert_pending show_id delta)
unfolding adjust_concert_pending
adjust_pending-returns show_id delta =
    if-Gets (show_id == 0) (give tt) _ (tt, refl)
      (if-Gets (pos_part delta == 0 && neg_part delta == 0) (give tt)
        (adjust (pending show_id) delta) (tt, refl) (adjust-returns (pending show_id) delta))

after_settling-returns :
    (show_id : ℕ) (restores : Bool) (o : Option ℕ) → NeverRaises (after_settling show_id restores o)
unfolding after_settling
after_settling-returns show_id restores none = (some 0, refl)
after_settling-returns show_id restores (some n) =
    bind-Gets (try_command (delete (snapshot show_id))) _
      (try_command-Gets (delete (snapshot show_id)))
      λ u.
        bind-Gets (if restores && ltb 0 n then adjust_concert_remain show_id (pos n) else give tt)
          (λ x. give (some n))
          (if-Gets (restores && ltb 0 n) (adjust_concert_remain show_id (pos n)) (give tt)
            (adjust_remain-returns show_id (pos n)) (tt, refl))
          (λ x. (some n, refl))

finalize_seats-returns :
    (show_id : ℕ) (ref : String) (restores : Bool) (ss : List Seat)
    → NeverRaises (finalize_seats show_id ref restores ss)
unfolding finalize_seats
finalize_seats-returns show_id ref restores [] =
    bind-Gets (try_command (delete (hold_meta ref))) (λ x. give (some 0))
      (try_command-Gets (delete (hold_meta ref))) (λ x. (some 0, refl))
finalize_seats-returns show_id ref restores (s ∷ ss) =
    bind-Gets (attempt (settle show_id ref restores (s ∷ ss))) (after_settling show_id restores)
      (attempt-Gets (settle show_id ref restores (s ∷ ss)))
      (after_settling-returns show_id restores)

pub finalize-returns :
    (ref : String) (restores : Bool) → NeverRaises (finalize_concert_hold_by_ref ref restores)
unfolding finalize_concert_hold_by_ref finalize_meta
finalize-returns ref restores =
    if-Gets (str_eq ref "") (give none) _ (none, refl)
      (bind-Gets (or_else look none) (finalize_meta ref restores) (or_else-Gets look none) found)
  where
    look : Work (Option HoldMeta)
    look = command (get (hold_meta ref)) >>= λ raw. give (meta_of raw)

    found : (o : Option HoldMeta) → NeverRaises (finalize_meta ref restores o)
    found none = (none, refl)
    found (some m) =
        if-Gets (m.show_id == 0) (give none) _ (none, refl)
          (finalize_seats-returns m.show_id ref restores (seats_of m.seats))
