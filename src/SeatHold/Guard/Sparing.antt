-- ===== src/SeatHold/Guard/Sparing.antt =====
-- The guard on confirmed seats only reads.
use awstest.Prelude.{ℕ, List, [], ◌∷◌, All, map, leb}
use awstest.Prelude.Int.{pos_part}
use awstest.Redis.Commands.{get, sismember}
use awstest.Redis.Sends.{Sends, bind-Sends, if-Sends}
use awstest.Cache.{Key, Seat, seat, confirmed, snapshot, seat_member}
use awstest.Cache.Sends.{SparesKey, execute-Sends, get-Sends, scard-Sends}
use awstest.SeatHold.Guard.{
  any, reply_flag, is_confirmed_reply, from_snapshot, from_confirmed_set, any_confirmed,
}

module _ (j : Key) (show_id : ℕ) where
  gets-Spares : (ss : List Seat) → All (SparesKey j) (map (λ s. get (seat show_id s)) ss)
  gets-Spares [] = tt
  gets-Spares (s ∷ ss) = (tt, gets-Spares ss)

  sismembers-Spares :
      (ss : List Seat)
      → All (SparesKey j) (map (λ s. sismember (confirmed show_id) (seat_member s)) ss)
  sismembers-Spares [] = tt
  sismembers-Spares (s ∷ ss) = (tt, sismembers-Spares ss)

  from_snapshot-Spares : (ss : List Seat) → Sends (SparesKey j) (from_snapshot show_id ss)
  unfolding from_snapshot
  from_snapshot-Spares ss =
      bind-Sends (SparesKey j) _ _ (get-Sends (SparesKey j) (snapshot show_id) tt) (λ _. tt)

  from_confirmed_set-Spares : (ss : List Seat) → Sends (SparesKey j) (from_confirmed_set show_id ss)
  unfolding from_confirmed_set
  from_confirmed_set-Spares ss =
      bind-Sends (SparesKey j) _ _ (scard-Sends (SparesKey j) (confirmed show_id) tt) λ n.
        if-Sends (SparesKey j) (leb (pos_part n) 0) _ _ tt (
          bind-Sends (SparesKey j) _ _ (execute-Sends (SparesKey j) _ (sismembers-Spares ss))
            λ res. if-Sends (SparesKey j) (any reply_flag res) _ _ tt (from_snapshot-Spares ss))

  pub any_confirmed-Spares : (ss : List Seat) → Sends (SparesKey j) (any_confirmed show_id ss)
  unfolding any_confirmed
  any_confirmed-Spares [] = tt
  any_confirmed-Spares (s ∷ ss) =
      bind-Sends (SparesKey j) _ _ (execute-Sends (SparesKey j) _ (gets-Spares (s ∷ ss))) λ vals.
        if-Sends (SparesKey j) (any is_confirmed_reply vals) _ _ tt
          (from_confirmed_set-Spares (s ∷ ss))
