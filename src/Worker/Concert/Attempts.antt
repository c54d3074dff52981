-- ===== src/Worker/Concert/Attempts.antt =====
-- An attempt at a concert booking comes to the insertion, if no statement fails and the hall has the
-- seats; and a round of which the attempt returns is the last.
use awstest.Prelude.{ℕ, suc, ◌≡◌, refl, sym, ap, subst, ◌∙◌, Bool, true, false, some, if◌then◌else◌}
use awstest.Booking.{DeskServer}
use awstest.SeatHold.Views.{Server}
use awstest.Worker.Holds.{seats_of}
use awstest.Worker.Recounts.{ConcertShow}
use awstest.Worker.Concert.Tables.{ConcertTables, Result}
use awstest.Worker.Concert.Job.{World, pure, ◌>>◌, catch, select, connect}
use awstest.Worker.Concert.Effects.{Request, Env, Here, refuse}
use awstest.Worker.Concert.{
  Assigned, any_outside, book, with_show, attempt_booking, after_error, round, rounds,
}
use awstest.Worker.Concert.Calm.{
  Calm, Gives, bind-Gives, next-Gives, catch-Gives, select-Calm, connect-Calm,
}

module _ (r : DeskServer) (c : Server) (env : Env) (q : Request) (t : ConcertTables) where
  abbrev pub Steady : World r.Db c.Db → Type 0
  Steady = Calm t (λ x. x ≡ t)

  pub attempt-Calm :
      (X : Result (Unit {0}) × World r.Db c.Db → Type 0) (s : ConcertShow) (new : Assigned)
      → t.shows q.show_id ≡ some s
      → any_outside s (seats_of q.seats) ≡ false
      → ((v : World r.Db c.Db) → Steady v → X (book r c env q s new v))
      → (w : World r.Db c.Db) → Steady w
      → X (attempt_booking r c env q new w)
  unfolding attempt_booking with_show
  attempt-Calm X s new show inside books w p =
      bind-Gives X Steady _ (select (λ x. x.shows q.show_id)) w (select-Calm t (λ x. x ≡ t) w p _)
        (with_show r c env q new)
        λ v i.
          subst (λ o. X (with_show r c env q new o v))
            (sym (ap (λ x. x.shows q.show_id) p.seen ∙ show))
            (subst
              (λ b. X ((if b then refuse r c env q "INVALID_SEAT" else book r c env q s new) v))
              (sym inside) (books v i))

  pub rounds-Calm :
      (P : World r.Db c.Db → Type 0) (new : ℕ → Assigned) (n attempt : ℕ)
      → ((v : World r.Db c.Db) → Steady v → Gives tt P (attempt_booking r c env q (new attempt) v))
      → (w : World r.Db c.Db) → Calm t (λ x. Unit) w
      → Gives true P (rounds r c env q new (suc n) attempt w)
  unfolding rounds round
  rounds-Calm P new n attempt books w p =
      let tries : Here r c Bool = attempt_booking r c env q (new attempt) >> pure true in
      let once : Here r c Bool = connect >> catch tries (after_error r c env q attempt) in
      bind-Gives (Gives true P) P true once w
        (next-Gives (Gives true P) Steady tt connect w (connect-Calm t (λ x. Unit) w p)
          (catch tries (after_error r c env q attempt))
          (λ v i. catch-Gives P true tries (after_error r c env q attempt) v (
            next-Gives (Gives true P) P tt (attempt_booking r c env q (new attempt)) v (books v i)
              (pure true) (λ u j. (u, refl, j)))))
        (λ b. elim b [ true ↦ pure true | false ↦ rounds r c env q new n (suc attempt) ])
        (λ v i. (v, refl, i))
