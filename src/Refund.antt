-- ===== src/Refund.antt =====
-- services/ticketing-was/user/user_write.py: `_refund_concert_booking`, on the tables of the concert
-- bookings and the read cache, with `invalidate_concert_caches_after_booking` of concert_read_cache.py.
pub mod Statements
pub mod Steps
pub mod Spec
pub mod Rows
pub mod Tables
pub mod Course
pub mod Whole
mod Examples
use awstest.Prelude.{
  ℕ, Bool, true, false, Option, none, some, List, [], ◌∷◌, ltb, ◌==◌, if◌then◌else◌,
}
use awstest.Prelude.Int.{pos}
use awstest.Redis.Commands.{num, delete}
use awstest.Redis.Program.{ret, run}
use awstest.Redis.Program as Program
use awstest.Cache.{Seat, remain, bootstrap, snapshot}
use awstest.Cache.Safe.{Cached, execute}
use awstest.Cache.Safe as Safe
use awstest.SeatHold.Guard.{remove_confirmed_seats}
use awstest.SeatHold.Views.{Server}
use awstest.Worker.Concert.Tables.{ConcertBooking, ConcertTables, Raised, Result, ok}
use awstest.Worker.Concert.Job.{
  World, Task, pure, ◌>>=◌, ◌>>◌, catch, select, write, connect, commit, rollback,
}
use awstest.Refund.Statements.{
  find_own, concert_of, seats_with, remain_of, cancel_booking, cancel_payment, cancel_seats,
  recount, set_status,
}

pub data Answer : Type 0 where
  not_found already_cancelled broken refunded : Answer

-- What the transaction leaves for the caches.
pub record Details : Type 0 where
  pub concert_id : ℕ
  pub show_id : ℕ
  pub seats : List Seat
  pub remain_after : Option ℕ

pub data Outcome : Type 0 where
  ended : Answer → Outcome
  completed : Details → Outcome

invalidate_concert_caches_after_booking : ℕ → ℕ → Cached (Unit {0})
invalidate_concert_caches_after_booking concert_id show_id =
    Program.◌>>=◌
      (execute (
        delete (bootstrap concert_id)
        ∷ (if show_id == 0 then [] else delete (snapshot show_id) ∷ [])))
      (λ done. ret tt)

set_remain : ℕ → Option ℕ → Cached (Unit {0})
set_remain show_id none = ret tt
set_remain show_id (some n) =
    Program.◌>>=◌ (Safe.set (remain show_id) (num (pos n))) (λ done. ret tt)

-- After COMMIT. The client of the read cache does not raise.
unfoldable pub correct_caches : Details → Cached (Unit {0})
unfolding invalidate_concert_caches_after_booking set_remain
correct_caches d =
    Program.◌>>=◌
      (if ltb 0 d.concert_id
        then invalidate_concert_caches_after_booking d.concert_id d.show_id
        else ret tt)
      λ done.
        if d.show_id == 0
        then ret tt
        else Program.◌>>=◌ (remove_confirmed_seats d.show_id d.seats)
            (λ done. set_remain d.show_id d.remain_after)

module _ (c : Server) where
  abbrev pub Here : Type 0 → Type 0
  Here = Task (Unit {0}) c.Db

  unfoldable pub on_cache : Cached (Unit {0}) → Here (Unit {0})
  on_cache m w =
      let o = run c m w.cache_faults w.cache in
      (ok tt, record w { cache = o.db; cache_faults = o.faults })

  -- remain_count and the status of the show, from the active seats.
  unfoldable pub synchronise : ℕ → Here (Option ℕ)
  unfolding ◌>>=◌ ◌>>◌ write select recount remain_of set_status
  synchronise show_id = if show_id == 0 then pure none else do
    write (recount show_id)
    n ← select (remain_of show_id)
    write (set_status show_id (n == 0))
    pure (some n)

  unfoldable pub refund_found : ℕ → ConcertBooking → Here Outcome
  unfolding ◌>>=◌ ◌>>◌ write select commit synchronise concert_of seats_with cancel_booking
      cancel_payment cancel_seats
  refund_found booking_id b = do
    concert_id ← if b.show_id == 0 then pure 0 else select (concert_of b.show_id)
    seats ← if b.show_id == 0 then pure [] else select (λ t. seats_with booking_id t.active)
    write (cancel_booking booking_id)
    write (cancel_payment booking_id)
    write (cancel_seats booking_id)
    n ← synchronise b.show_id
    commit
    pure (
        completed (record {
          concert_id = concert_id;
          show_id = b.show_id;
          seats = seats;
          remain_after = n;
        }))

  unfoldable pub refund_if_own : ℕ → Option ConcertBooking → Here Outcome
  unfolding ◌>>◌ rollback refund_found
  refund_if_own booking_id none = rollback >> pure (ended not_found)
  refund_if_own booking_id (some b) =
      if b.cancelled then rollback >> pure (ended already_cancelled) else refund_found booking_id b

  unfoldable pub finish : Outcome → Here Answer
  unfolding ◌>>◌ on_cache correct_caches
  finish (ended a) = pure a
  finish (completed d) = on_cache (correct_caches d) >> pure refunded

  -- An exception of get_tx_conn goes on.
  unfoldable pub refund_concert_booking : ℕ → ℕ → Here Answer
  unfolding ◌>>=◌ ◌>>◌ catch connect select rollback find_own refund_if_own finish
  refund_concert_booking user_id booking_id =
      connect
      >> (catch (select (λ t. find_own user_id booking_id t.bookings) >>= refund_if_own booking_id)
            (λ e. rollback >> pure (ended broken))
          >>= finish)
