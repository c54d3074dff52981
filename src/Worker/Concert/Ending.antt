-- ===== src/Worker/Concert/Ending.antt =====
-- The rest of a booking once its rows are written: COMMIT, its result, the closing of the show.
use awstest.Prelude.{String, ◌≡◌, refl, ap, ◌∙◌, All}
use awstest.Booking.{Booked, booked, DeskServer}
use awstest.SeatHold.Views.{Server}
use awstest.Worker.Recounts.{ConcertShow}
use awstest.Worker.Closing.Returns.{Connects, close-returns}
use awstest.Worker.Concert.Tables.{ConcertTables, ok}
use awstest.Worker.Concert.Job.{World, Task, pure, ◌>>=◌, ◌>>◌, catch, select, write, commit}
use awstest.Worker.Concert.Effects.{
  Request, Env, Here, store, confirm, get_remain, close_if_soldout, closed_by,
}
use awstest.Worker.Concert.{
  Assigned, any_outside, choose_code, unless_duplicate, booking_row, insert_booking, ensure_code,
  report, finish, recover, book, process_concert_booking,
}
use awstest.Worker.Concert.Triples.{Frame, frame_of}
use awstest.Worker.Concert.Calm.{CalmAt, Calm, Gives, bind-Gives, next-Gives}
use awstest.Worker.Concert.Settling.{get_remain-Settles}
use awstest.Worker.Concert.Storing.{Shows as HasResult, store-confirms}

module _ (r : DeskServer) (c : Server) (env : Env) (q : Request) (new : Assigned) where
  -- The result that is stored is that of the booking.
  abbrev Answers : r.Db → Type 0
  Answers d =
      (x : Booked) × (x.booking_id ≡ new.booking_id)
      × (x.payment_id ≡ new.payment_id)
      × HasResult r c env q x d

  abbrev pub Booking : Frame → World r.Db c.Db → Type 0
  Booking g w = (frame_of w.committed ≡ g) × Answers w.desk

  abbrev pub end : ConcertShow → String → Here r c (Unit {0})
  end s code = get_remain r c env q >>= λ n.
      commit
      >> report r c env q s (record {
        booking_id = new.booking_id;
        booking_code = code;
        payment_id = new.payment_id;
        remain_count_after = n;
      })

  module _ (t : ConcertTables) (s : ConcertShow) (g : Frame)
      (connects : All Connects env.closings) where
    abbrev Seen : World r.Db c.Db → Type 0
    Seen = Calm t (λ x. frame_of x ≡ g)

    closes :
        (x : Booked) (w : World r.Db c.Db)
        → frame_of w.committed ≡ g
        → HasResult r c env q x w.desk
        → x.booking_id ≡ new.booking_id
        → x.payment_id ≡ new.payment_id
        → Gives tt (Booking g) (close_if_soldout r c env q x.remain_count_after w)
    unfolding close_if_soldout
    closes x w e p i j =
        let back =
          close-returns q.show_id (w.committed.shows) env.tries x.remain_count_after env.closings
            connects in
        (_, ap (λ y. closed_by y w) back.1, (e, (x, i, j, p)))

    reports :
        (x : Booked) (t' : ConcertTables) (w : World r.Db c.Db)
        → frame_of t' ≡ g
        → x.booking_id ≡ new.booking_id
        → x.payment_id ≡ new.payment_id
        → Calm t' (λ y. Unit) w
        → Gives tt (Booking g) (report r c env q s x w)
    unfolding report
    reports x t' w e i j p =
        next-Gives (Gives tt (Booking g)) (CalmAt t' (λ y. Unit) (HasResult r c env q x)) tt
          (store r c env q (booked x) >> confirm r c env q s.concert_id) w
          (store-confirms r c env q t' (λ y. Unit) x w p s.concert_id)
          (close_if_soldout r c env q x.remain_count_after)
          (λ v k. closes x v (ap frame_of k.committed ∙ e) k.stored i j)

    commits :
        (w : World r.Db c.Db)
        → Seen w
        → Gives tt
            (λ v. (t' : ConcertTables) × (frame_of t' ≡ g) × Calm t' (λ y. Unit) v)
            (commit w)
    unfolding commit
    commits w p = (
      record w { committed = w.tables },
      ap
          (λ fs.
            awstest.Worker.Concert.Job.sends (λ w. (ok tt, record w { committed = w.tables })) fs w)
          p.statements,
      (
        w.tables,
        p.seen,
        record {
          statements = p.statements;
          requests = p.requests;
          committed = refl;
          seen = tt;
          stored = tt;
        },
      ),
    )

    pub ends : (code : String) (w : World r.Db c.Db) → Seen w → Gives tt (Booking g) (end s code w)
    ends code w p =
        let n = get_remain-Settles r c env q t (λ x. frame_of x ≡ g) (λ d. Unit) w p in
        let x : Booked = record {
          booking_id = new.booking_id;
          booking_code = code;
          payment_id = new.payment_id;
          remain_count_after = n.0;
        } in
        bind-Gives (Gives tt (Booking g)) (Seen) n.0 (get_remain r c env q) w n.1 _ λ v i.
          next-Gives (Gives tt (Booking g))
            (λ v. (t' : ConcertTables) × (frame_of t' ≡ g) × Calm t' (λ y. Unit) v) tt commit v
            (commits v i) (report r c env q s x) (λ u j. reports x j.0 u j.1 refl refl j.2)
