-- ===== src/Refund/Steps.antt =====
-- What a statement of a refund does to what is committed and to what the connection sees.
use awstest.Prelude.{◌≡◌, refl, inl, inr, sym, ap, subst, ◌∙◌, none, some, [], ◌∷◌}
use awstest.Worker.Concert.Tables.{ConcertTables, Result, ok}
use awstest.Worker.Concert.Job.{
  World, select, write, connect, commit, rollback, written, sends, Failures,
}
use awstest.Refund.Spec.{AnyFails}
use awstest.Worker.Concert.Triples.{Ends, ends, raises, Triple}

-- `start` are the failures at the start: what is still to fail was to fail then.
abbrev pub Calm : Failures → Failures → Type 0
Calm start fs = AnyFails fs → AnyFails start

module _ {D C : Type 0} (start : Failures) (t : ConcertTables) where
  -- What is committed, and what the connection sees.
  abbrev pub At : ConcertTables → World D C → Type 0
  At u w = (w.committed ≡ t) × (w.tables ≡ u) × Calm start w.statements

  abbrev pub Same : World D C → Type 0
  Same w = (w.committed ≡ t) × Calm start w.statements

  -- A statement has failed.
  abbrev pub Failed : World D C → Type 0
  Failed w = (w.committed ≡ t) × AnyFails start

  sends-At :
      {A : Type 0} (Q : A → World D C → Type 0) (f : World D C → Result A × World D C)
      (fs : Failures) (w : World D C)
      → w.committed ≡ t
      → Calm start fs
      → ((gs : Failures) → Calm start gs → Ends Q Failed (f (record w { statements = gs })))
      → Ends Q Failed (f w)
      → Ends Q Failed (sends f fs w)
  sends-At Q f [] w e k h now = now
  sends-At Q f (none ∷ fs) w e k h now = h fs (λ p. k (inr p))
  sends-At Q f (some x ∷ fs) w e k h now = raises (e, k (inl (x, refl)))

  pub connect-At : Triple Same connect (λ a. At t) Failed
  unfolding connect
  connect-At w p =
      sends-At (λ a. At t) _ w.statements w p.0 p.1 (λ gs k. ends (p.0, p.0, k))
        (ends (p.0, p.0, p.1))

  pub rollback-At : Triple Same rollback (λ a. At t) Failed
  unfolding rollback
  rollback-At w p = ends (p.0, p.0, p.1)

  module _ (u : ConcertTables) where
    pub select-At :
        {A : Type 0} (f : ConcertTables → A)
        → Triple (At u) (select f) (λ a w. At u w × (a ≡ f u)) Failed
    unfolding select
    select-At f w p =
        sends-At (λ a w. At u w × (a ≡ f u)) _ w.statements w p.0 p.2
          (λ gs k. ends ((p.0, p.1, k), ap f p.1)) (ends (p, ap f p.1))

    pub write-At :
        (f : ConcertTables → Result ConcertTables) (v : ConcertTables)
        → f u ≡ ok v
        → Triple (At u) (write f) (λ a. At v) Failed
    unfolding write
    write-At f v e w p =
        sends-At (λ a. At v) _ w.statements w p.0 p.2
          (λ gs k. lands (record w { statements = gs }) (p.0, p.1, k)) (lands w p)
      where
        lands : (w : World D C) → At u w → Ends (λ a. At v) Failed (written (f w.tables) w)
        lands w i =
            subst (Ends (λ a. At v) Failed) (ap (λ x. written x w) (sym (ap f i.1 ∙ e)))
              (ends (i.0, refl, i.2))

    pub commit-At : Triple (At u) commit (λ a w. w.committed ≡ u) Failed
    unfolding commit
    commit-At w p =
        sends-At (λ a w. w.committed ≡ u) _ w.statements w p.0 p.2 (λ gs k. ends p.1) (ends p.1)
