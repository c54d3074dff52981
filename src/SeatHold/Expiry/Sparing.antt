-- ===== src/SeatHold/Expiry/Sparing.antt =====
-- The sold-out expiry changes no value: it only gives keys a time to live.
use awstest.Prelude.{ℕ, String, List, [], ◌∷◌, ◌++◌, All, map, leb, length, ◌==◌}
use awstest.Redis.Commands.{expire, get}
use awstest.Redis.Sends.{Sends, bind-Sends, elim-Sends, if-Sends}
use awstest.Cache.{Key, hold_meta}
use awstest.Cache.Safe as Safe
use awstest.Cache.Sends.{SparesKey, execute-Sends, one-Sends}
use awstest.SeatHold.Config.{Config, Scan}
use awstest.SeatHold.Expiry.{
  flush, expire_in_batches, expire_metas, expire_all, expire_hold_cache_on_soldout, of_show,
  append_if,
}

module _ (j : Key) where
  expires-Spares : (ttl : ℕ) (ks : List Key) → All (SparesKey j) (map (λ k. expire k ttl) ks)
  expires-Spares ttl [] = tt
  expires-Spares ttl (k ∷ ks) = (tt, expires-Spares ttl ks)

  flush-Spares : (ttl : ℕ) (ks : List Key) → Sends (SparesKey j) (flush ttl ks)
  unfolding flush
  flush-Spares ttl [] = tt
  flush-Spares ttl (k ∷ ks) =
      bind-Sends (SparesKey j) _ _ (execute-Sends (SparesKey j) _ (expires-Spares ttl (k ∷ ks)))
        (λ _. tt)

  in_batches-Spares :
      (limit ttl : ℕ) (batch ks : List Key)
      → Sends (SparesKey j) (expire_in_batches limit ttl batch ks)
  unfolding expire_in_batches
  in_batches-Spares limit ttl batch [] = flush-Spares ttl batch
  in_batches-Spares limit ttl batch (k ∷ ks) =
      elim-Sends (SparesKey j) (leb limit (length (batch ++ k ∷ []))) _ _
        (bind-Sends (SparesKey j) _ _ (flush-Spares ttl (batch ++ k ∷ []))
          (λ _. in_batches-Spares limit ttl [] ks))
        (in_batches-Spares limit ttl (batch ++ k ∷ []) ks)

  get-Spares : (k : Key) → Sends (SparesKey j) (Safe.get k)
  unfolding Safe.get
  get-Spares k = one-Sends (SparesKey j) (get k) _ _ tt

  metas-Spares :
      (limit ttl sid : ℕ) (batch : List Key) (refs : List String)
      → Sends (SparesKey j) (expire_metas limit ttl sid batch refs)
  unfolding expire_metas
  metas-Spares limit ttl sid batch [] = flush-Spares ttl batch
  metas-Spares limit ttl sid batch (ref ∷ refs) =
      bind-Sends (SparesKey j) _ _ (get-Spares (hold_meta ref)) λ raw.
        let batch' = append_if (of_show sid raw) batch (hold_meta ref) in
        elim-Sends (SparesKey j) (leb limit (length batch')) _ _
          (bind-Sends (SparesKey j) _ _ (flush-Spares ttl batch')
            (λ _. metas-Spares limit ttl sid [] refs))
          (metas-Spares limit ttl sid batch' refs)

  -- Whatever the scans answer and whatever requests fail.
  pub soldout-Spares :
      (config : Config) (scan : Scan) (sid : ℕ)
      → Sends (SparesKey j) (expire_hold_cache_on_soldout config scan sid)
  unfolding expire_hold_cache_on_soldout expire_all
  soldout-Spares config scan sid = if-Sends (SparesKey j) (sid == 0) _ _ tt (
      if-Sends (SparesKey j) (config.soldout_ttl == 0) _ _ tt (
        bind-Sends (SparesKey j) _ _ (execute-Sends (SparesKey j) _ (tt, (tt, (tt, tt)))) λ _.
          bind-Sends (SparesKey j) _ _ (in_batches-Spares 1000 config.soldout_ttl [] scan.seat_keys)
            λ _. metas-Spares 500 config.soldout_ttl sid [] scan.meta_refs))
