-- ===== src/Refund/Tables.antt =====
-- The tables that a refund leaves are as it promises.
use awstest.Prelude.{
  ℕ, ◌-◌, ◌≡◌, refl, sym, subst, Bool, true, false, Option, none, some, inl, inr, map, ◌==◌, arith,
  Bool-cases, if◌then◌else◌,
}
use mathlib.Core.Option as Option
use awstest.Worker.Recounts.{ConcertShow}
use awstest.Worker.Concert.Tables.{ConcertBooking, ConcertTables}
use awstest.Refund.Statements.{
  remain_of, cancelled_row, unpaid_row, without, count_active, update_show,
}
use awstest.Refund.Spec.{ShowAfter, with_remain, Refunded}
use awstest.Refund.Rows.{
  same, apart, cancelled-Updated, unpaid-Updated, without-Deleted, count_active-Counted,
}

abbrev pub cleared : ℕ → ConcertTables → ConcertTables
cleared id t = record t {
  bookings = map (cancelled_row id) t.bookings;
  payments = map (unpaid_row id) t.payments;
  active = without id t.active;
}

abbrev pub recounted : ℕ → ConcertTables → ConcertTables
recounted show_id t = record t {
  shows =
      update_show show_id
        (λ s. record s { remain_count = s.total_count - count_active show_id t.active }) t.shows;
}

abbrev pub with_status : ℕ → Bool → ConcertTables → ConcertTables
with_status show_id closes t = record t {
  shows = update_show show_id (λ s. record s { closed = closes }) t.shows;
}

abbrev pub synced : ℕ → ConcertTables → ConcertTables
synced show_id t =
    let u = recounted show_id t in
    if show_id == 0 then t else with_status show_id (remain_of show_id u == 0) u

-- The tables that a refund leaves.
abbrev pub after_refund : ℕ → ConcertBooking → ConcertTables → ConcertTables
after_refund id b t = synced b.show_id (cleared id t)

module _ (show_id : ℕ) (u : ConcertTables) where
  abbrev now : ConcertTables
  now = with_status show_id (remain_of show_id (recounted show_id u) == 0) (recounted show_id u)

  abbrev n : ConcertShow → ℕ
  n s = s.total_count - count_active show_id u.active

  row_now :
      (o : Option ConcertShow)
      → u.shows show_id ≡ o
      → now.shows show_id ≡ Option.map (λ s. with_remain (n s) s) o
  unfolding remain_of update_show
  row_now none e = ground (arith, e)
  row_now (some s) e = ground (arith, e)

  other_now : (j : ℕ) → (j == show_id) ≡ false → u.shows j ≡ now.shows j
  unfolding update_show
  other_now j e = rw e refl

  shown : (j : ℕ) → ShowAfter show_id u.active j (u.shows j) (now.shows j)
  shown j = elim (Bool-cases (j == show_id)) [
    | inl e ↦
        subst (λ i. ShowAfter show_id u.active i (u.shows i) (now.shows i)) (sym (same j show_id e))
          (subst (ShowAfter show_id u.active show_id (u.shows show_id))
            (sym (row_now (u.shows show_id) refl))
            (ShowAfter.recounted (count_active show_id u.active) refl
              (count_active-Counted show_id u.active)))
    | inr e ↦
        subst (ShowAfter show_id u.active j (u.shows j)) (other_now j e)
          (ShowAfter.other (apart j show_id e))
  ]

module _ (id : ℕ) (b : ConcertBooking) (t : ConcertTables) where
  pub after-Refunded : Refunded id b t (after_refund id b t)
  after-Refunded = by_show (b.show_id == 0) refl
    where
      by_show :
          (x : Bool)
          → (b.show_id == 0) ≡ x
          → Refunded id b t (
              if x
              then cleared id t
              else with_status b.show_id
                  (remain_of b.show_id (recounted b.show_id (cleared id t)) == 0)
                  (recounted b.show_id (cleared id t)))
      by_show true z = record {
        bookings = cancelled-Updated id t.bookings;
        payments = unpaid-Updated id t.payments;
        seats = without-Deleted id t.active;
        shows = λ j. ShowAfter.no_show (same b.show_id 0 z);
        users = refl;
      }
      by_show false z = record {
        bookings = cancelled-Updated id t.bookings;
        payments = unpaid-Updated id t.payments;
        seats = without-Deleted id t.active;
        shows = λ j. shown b.show_id (cleared id t) j;
        users = refl;
      }
