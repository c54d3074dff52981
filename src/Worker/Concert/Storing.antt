-- ===== src/Worker/Concert/Storing.antt =====
-- A result that is stored is there after it, and stays while the read cache is brought up to date.
use awstest.Prelude.{ℕ, ◌≡◌, ap, ◌∙◌, some}
use awstest.Redis.Commands.{doc}
use awstest.Redis.Simulation.{look-run}
use awstest.Redis.Spares.{value_of}
use awstest.Booking.{
  concert, result, Booked, booked, verdict_doc, DeskServer, Desk, on_desk as on_store,
}
use awstest.Booking.Results.{store_result}
use awstest.Booking.Results.Stored.{stored_run, returns_run}
use awstest.SeatHold.Views.{Server}
use awstest.Worker.Concert.Tables.{ConcertTables}
use awstest.Worker.Concert.Job.{World, ◌>>◌}
use awstest.Worker.Concert.Effects.{Request, Env, store, confirm}
use awstest.Worker.Concert.Calm.{CalmAt, Gives, next-Gives, on_desk-Calm}
use awstest.Worker.Concert.Settling.{confirm-Settles}

module _ (r : DeskServer) (c : Server) (env : Env) (q : Request) where
  -- The booking database has this result for the reference.
  abbrev pub Shows : Booked → r.Db → Type 0
  Shows b d = value_of (r.look d (result q.booking_ref)) ≡ some (doc (verdict_doc (booked b)))

  module _ {F : r.Db → Type 0} (t : ConcertTables) (S : ConcertTables → Type 0) (b : Booked)
      (w : World r.Db c.Db) (p : CalmAt t S F w) where
    abbrev stores : Desk (Unit {0})
    stores = store_result env.settings q.booking_ref (booked b) (some concert) q.show_id

    pub store-Shows : Gives tt (CalmAt t S (Shows b)) (store r c env q (booked b) w)
    unfolding store
    store-Shows =
        let back = returns_run env.settings q.booking_ref (booked b) (some concert) q.show_id in
        on_desk-Calm r c t S w p (Shows b) stores tt (back (r.look w.desk)) (
          ap (λ s. value_of (s (result q.booking_ref))) (look-run r stores w.desk_faults w.desk)
          ∙ stored_run env.settings q.booking_ref (booked b) (some concert) q.show_id w.desk_faults
              (r.look w.desk)
              (ap (λ fs. (on_store stores fs (r.look w.desk)).result) p.requests
                ∙ back (r.look w.desk)))

    pub store-confirms :
        (concert_id : ℕ)
        → Gives tt
            (CalmAt t S (Shows b))
            ((store r c env q (booked b) >> confirm r c env q concert_id) w)
    store-confirms concert_id =
        next-Gives (Gives tt (CalmAt t S (Shows b))) (CalmAt t S (Shows b)) tt
          (store r c env q (booked b)) w store-Shows (confirm r c env q concert_id)
          (confirm-Settles r c env q t S (Shows b) concert_id)
