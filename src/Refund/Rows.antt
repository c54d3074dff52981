-- ===== src/Refund/Rows.antt =====
-- The statements of a refund do to each row what it promises.
use awstest.Prelude.{
  ℕ, ◌+◌, ◌≡◌, refl, subst, Bool, true, false, none, some, List, [], ◌∷◌, map, inl, inr, ◌==◌, ◌&&◌,
  arith, if◌then◌else◌,
}
use awstest.Worker.Concert.Tables.{ConcertBooking, ConcertSeat, ConcertPayment}
use awstest.Refund.Statements.{find_own, cancelled_row, unpaid_row, without, count_active}
use awstest.Refund.Spec.{Updated, Deleted, Counted, IsOwn, HasOwn, HasNoOwn}

pub same : (a b : ℕ) → (a == b) ≡ true → a ≡ b
same a b h = ground arith

pub apart : (a b : ℕ) → (a == b) ≡ false → ¬ (a ≡ b)
apart a b h p = ground arith

-- An update that tests a number of the row.
map-Updated :
    {A : Type 0} (key : A → ℕ) (f : A → A) (id : ℕ) (xs : List A)
    → Updated (λ x. key x ≡ id) f xs (map (λ x. if key x == id then f x else x) xs)
map-Updated key f id [] = Updated.none_left
map-Updated {A} key f id (x ∷ xs) = tested (key x == id) refl (map-Updated key f id xs)
  where
    rest : List A
    rest = map (λ x. if key x == id then f x else x) xs

    tested :
        (b : Bool)
        → (key x == id) ≡ b
        → Updated (λ x. key x ≡ id) f xs rest
        → Updated (λ x. key x ≡ id) f (x ∷ xs) ((if b then f x else x) ∷ rest)
    tested true e k = Updated.changed (same (key x) id e) k
    tested false e k = Updated.kept (apart (key x) id e) k

module _ (id : ℕ) where
  pub cancelled-Updated :
      (bs : List ConcertBooking)
      → Updated
          (λ x. x.booking_id ≡ id)
          (λ x. record x { cancelled = true })
          bs
          (map (cancelled_row id) bs)
  unfolding cancelled_row
  cancelled-Updated = map-Updated (λ x. x.booking_id) (λ x. record x { cancelled = true }) id

  pub unpaid-Updated :
      (ps : List ConcertPayment)
      → Updated
          (λ p. p.booking_id ≡ id)
          (λ p. record p { paid = false })
          ps
          (map (unpaid_row id) ps)
  unfolding unpaid_row
  unpaid-Updated = map-Updated (λ p. p.booking_id) (λ p. record p { paid = false }) id

  pub without-Deleted :
      (rs : List ConcertSeat) → Deleted (λ r. r.booking_id ≡ id) rs (without id rs)
  unfolding without
  without-Deleted [] = Deleted.none_left
  without-Deleted (r ∷ rs) = tested (r.booking_id == id) refl (without-Deleted rs)
    where
      tested :
          (b : Bool)
          → (r.booking_id == id) ≡ b
          → Deleted (λ r. r.booking_id ≡ id) rs (without id rs)
          → Deleted
              (λ r. r.booking_id ≡ id)
              (r ∷ rs)
              (if b then without id rs else r ∷ without id rs)
      tested true e k = Deleted.dropped (same r.booking_id id e) k
      tested false e k = Deleted.kept (apart r.booking_id id e) k

  pub count_active-Counted :
      (rs : List ConcertSeat) → Counted (λ r. r.show_id ≡ id) rs (count_active id rs)
  unfolding count_active
  count_active-Counted [] = Counted.none_left
  count_active-Counted (r ∷ rs) = tested (r.show_id == id) refl (count_active-Counted rs)
    where
      tested :
          (b : Bool)
          → (r.show_id == id) ≡ b
          → Counted (λ r. r.show_id ≡ id) rs (count_active id rs)
          → Counted
              (λ r. r.show_id ≡ id)
              (r ∷ rs)
              (if b then 1 + count_active id rs else count_active id rs)
      tested true e k = Counted.counted (same r.show_id id e) k
      tested false e k = Counted.passed (apart r.show_id id e) k

  own :
      (user_id : ℕ) (x : ConcertBooking)
      → (x.booking_id == id && x.user_id == user_id) ≡ true
      → IsOwn user_id id x
  own user_id x e = (ground (arith, e), ground (arith, e))

  not-IsOwn :
      (user_id : ℕ) (x : ConcertBooking)
      → (x.booking_id == id && x.user_id == user_id) ≡ false
      → ¬ IsOwn user_id id x
  not-IsOwn user_id x e p = ground (arith, e, p)

  pub find_own-some :
      (user_id : ℕ) (bs : List ConcertBooking) (b : ConcertBooking)
      → find_own user_id id bs ≡ some b
      → HasOwn user_id id b bs
  unfolding find_own
  find_own-some user_id [] b h = cc
  find_own-some user_id (x ∷ bs) b h =
      tested (x.booking_id == id && x.user_id == user_id) refl (find_own-some user_id bs b) h
    where
      tested :
          (c : Bool)
          → (x.booking_id == id && x.user_id == user_id) ≡ c
          → (find_own user_id id bs ≡ some b → HasOwn user_id id b bs)
          → (if c then some x else find_own user_id id bs) ≡ some b
          → HasOwn user_id id b (x ∷ bs)
      tested true e k i =
          let p : x ≡ b = cc in (inl p, subst (IsOwn user_id id) p (own user_id x e))
      tested false e k i = (inr (k i).0, (k i).1)

  pub find_own-none :
      (user_id : ℕ) (bs : List ConcertBooking)
      → find_own user_id id bs ≡ none
      → HasNoOwn user_id id bs
  unfolding find_own
  find_own-none user_id [] h = tt
  find_own-none user_id (x ∷ bs) h =
      tested (x.booking_id == id && x.user_id == user_id) refl (find_own-none user_id bs) h
    where
      tested :
          (c : Bool)
          → (x.booking_id == id && x.user_id == user_id) ≡ c
          → (find_own user_id id bs ≡ none → HasNoOwn user_id id bs)
          → (if c then some x else find_own user_id id bs) ≡ none
          → HasNoOwn user_id id (x ∷ bs)
      tested true e k i = cc
      tested false e k i = (not-IsOwn user_id x e, k i)
