-- ===== src/Refund/Whole.antt =====
-- A refund is done as a whole, or not at all.
use awstest.Prelude.{ℕ, ◌≡◌, refl, sym, subst, true, false}
use awstest.SeatHold.Views.{Server}
use awstest.Worker.Concert.Tables.{ConcertBooking, ConcertTables, Result, ok, raise}
use awstest.Worker.Concert.Job.{World, Failures}
use awstest.Worker.Concert.Triples.{Ends, ends, raises}
use awstest.Refund.Spec.{AnyFails, HasOwn, HasNoOwn, Refunded}
use awstest.Refund.Rows.{find_own-some, find_own-none}
use awstest.Refund.Tables.{after-Refunded}
use awstest.Refund.{Answer, not_found, already_cancelled, broken, refunded, refund_concert_booking}
use awstest.Refund.Steps.{Failed}
use awstest.Refund.Course.{Finished, refund-Finished}

-- How a refund ends: the answer, the tables before it, and those after.
abbrev pub Whole : ℕ → ℕ → Failures → ConcertTables → Result Answer → ConcertTables → Type 0
Whole user_id id fs t (ok refunded) t' =
    (b : ConcertBooking) × HasOwn user_id id b t.bookings
    × (b.cancelled ≡ false)
    × Refunded id b t t'
Whole user_id id fs t (ok not_found) t' = HasNoOwn user_id id t.bookings × (t' ≡ t)
Whole user_id id fs t (ok already_cancelled) t' =
    ((b : ConcertBooking) × HasOwn user_id id b t.bookings × (b.cancelled ≡ true)) × (t' ≡ t)
Whole user_id id fs t (ok broken) t' = AnyFails fs × (t' ≡ t)
Whole user_id id fs t (raise e) t' = AnyFails fs × (t' ≡ t)

-- Whatever requests and statements fail, _refund_concert_booking ends in one of these ways. It
-- answers that it has refunded: the table had an uncancelled booking of this number and this user,
-- and in the committed tables the bookings of this number are cancelled, their payments are not
-- paid and their active seats are gone, all other bookings, payments and seats are as they were,
-- and the show of the booking (if it has one) has as remaining what the active seats that are left
-- do not take, is closed exactly if that is 0, and all other shows are as they were. Or it answers
-- that there is no booking of this number and this user, or a cancelled one, which is so, and the
-- committed tables are as they were. Or it answers or raises an error, one of the statements still
-- to come was one that fails, and they are as they were.
pub refund-all_or_nothing :
    (c : Server) (user_id id : ℕ) (w : World (Unit {0}) c.Db)
    → let o = refund_concert_booking c user_id id w in
      Whole user_id id w.statements w.committed o.0 o.1.committed
refund-all_or_nothing c user_id id w =
    whole (refund_concert_booking c user_id id w)
      (refund-Finished c user_id id w.statements w.committed w (refl, λ p. p))
  where
    whole :
        (x : Result Answer × World (Unit {0}) c.Db)
        → Ends (Finished c user_id id w.statements w.committed) (Failed w.statements w.committed) x
        → Whole user_id id w.statements w.committed x.0 x.1.committed
    whole (ok refunded, v) (ends (b, own, live, e)) = (
      b,
      find_own-some id user_id w.committed.bookings b own,
      live,
      subst (Refunded id b w.committed) (sym e) (after-Refunded id b w.committed),
    )
    whole (ok not_found, v) (ends p) = (find_own-none id user_id w.committed.bookings p.1, p.0)
    whole (ok already_cancelled, v) (ends p) =
        ((p.1.0, find_own-some id user_id w.committed.bookings p.1.0 p.1.1, p.1.2), p.0)
    whole (ok broken, v) (ends p) = (p.1, p.0)
    whole (raise e, v) (raises p) = (p.1, p.0)
