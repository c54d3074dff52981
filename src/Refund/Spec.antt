-- ===== src/Refund/Spec.antt =====
-- What a refund promises, row by row, without the words of its statements.
use awstest.Prelude.{
  ℕ, ◌+◌, ◌-◌, ◌≡◌, ◌≢◌, true, false, Option, some, List, [], ◌∷◌, ◌==◌, All, Any,
}
use mathlib.Core.Option as Option
use awstest.Worker.Recounts.{ConcertShow}
use awstest.Worker.Concert.Tables.{ConcertBooking, ConcertSeat, ConcertTables, Raised}
use awstest.Worker.Concert.Job.{Failures}

-- The rows that `P` picks are changed by `f`, the others are as they were.
pub data Updated {A : Type 0} (P : A → Type 0) (f : A → A) : List A → List A → Type 0 where
  none_left : Updated P f [] []
  changed : {x : A} {xs ys : List A} → P x → Updated P f xs ys → Updated P f (x ∷ xs) (f x ∷ ys)
  kept : {x : A} {xs ys : List A} → ¬ P x → Updated P f xs ys → Updated P f (x ∷ xs) (x ∷ ys)

-- The rows that `P` picks are gone, the others are as they were.
pub data Deleted {A : Type 0} (P : A → Type 0) : List A → List A → Type 0 where
  none_left : Deleted P [] []
  dropped : {x : A} {xs ys : List A} → P x → Deleted P xs ys → Deleted P (x ∷ xs) ys
  kept : {x : A} {xs ys : List A} → ¬ P x → Deleted P xs ys → Deleted P (x ∷ xs) (x ∷ ys)

-- `P` picks as many rows.
pub data Counted {A : Type 0} (P : A → Type 0) : List A → ℕ → Type 0 where
  none_left : Counted P [] 0
  counted : {x : A} {xs : List A} {n : ℕ} → P x → Counted P xs n → Counted P (x ∷ xs) (1 + n)
  passed : {x : A} {xs : List A} {n : ℕ} → ¬ P x → Counted P xs n → Counted P (x ∷ xs) n

abbrev pub with_remain : ℕ → ConcertShow → ConcertShow
with_remain n s = record s { remain_count = n; closed = n == 0 }

-- The show `j` before and after, where the booking is of `show_id` and `active` are the seats that are
-- left: what remains is what they do not take.
pub data ShowAfter (show_id : ℕ) (active : List ConcertSeat) (j : ℕ)
    : Option ConcertShow → Option ConcertShow → Type 0 where
  other : {o : Option ConcertShow} → j ≢ show_id → ShowAfter show_id active j o o
  no_show : {o : Option ConcertShow} → show_id ≡ 0 → ShowAfter show_id active j o o
  recounted :
      {o : Option ConcertShow} (n : ℕ)
      → j ≡ show_id
      → Counted (λ r. r.show_id ≡ show_id) active n
      → ShowAfter show_id active j o (Option.map (λ s. with_remain (s.total_count - n) s) o)

-- The tables after the refund of the booking `b`.
pub record Refunded (id : ℕ) (b : ConcertBooking) (t t' : ConcertTables) : Type 0 where
  pub bookings :
      Updated (λ x. x.booking_id ≡ id) (λ x. record x { cancelled = true }) t.bookings t'.bookings
  pub payments :
      Updated (λ p. p.booking_id ≡ id) (λ p. record p { paid = false }) t.payments t'.payments
  pub seats : Deleted (λ r. r.booking_id ≡ id) t.active t'.active
  pub shows : (j : ℕ) → ShowAfter b.show_id t'.active j (t.shows j) (t'.shows j)
  pub users : t'.users ≡ t.users

abbrev pub IsOwn : ℕ → ℕ → ConcertBooking → Type 0
IsOwn user_id id b = (b.booking_id ≡ id) × (b.user_id ≡ user_id)

-- The table has the booking `b`, of this number and this user.
abbrev pub HasOwn : ℕ → ℕ → ConcertBooking → List ConcertBooking → Type 0
HasOwn user_id id b bs = Any (λ x. x ≡ b) bs × IsOwn user_id id b

abbrev pub HasNoOwn : ℕ → ℕ → List ConcertBooking → Type 0
HasNoOwn user_id id bs = All (λ x. ¬ IsOwn user_id id x) bs

-- One of the statements to come fails.
abbrev pub AnyFails : Failures → Type 0
AnyFails fs = Any (λ o. (x : Raised) × (o ≡ some x)) fs
