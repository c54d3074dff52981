-- ===== src/SeatHold/Expiry.antt =====
-- `_expire_hold_cache_on_soldout`: when the last seat is gone, the keys of the show get a time to live.
pub mod Sparing
use awstest.Prelude.{
  ℕ, String, Bool, true, false, Option, none, some, List, [], ◌∷◌, ◌++◌, length, leb, ◌==◌, map,
  if◌then◌else◌,
}
use awstest.Redis.Commands.{num, doc, set_of, expire}
use awstest.Redis.Program.{ret, ◌>>=◌, ◌>>◌}
use awstest.Cache.{Key, hold, hold_rev, hold_meta, remain, text, meta, confirmed_seats}
use awstest.Cache.Safe.{Cached, CacheValue, execute}
use awstest.Cache.Safe as Safe
use awstest.SeatHold.Config.{Config, Scan}

-- One pipeline of EXPIRE.
flush : ℕ → List Key → Cached (Unit {0})
flush ttl [] = ret tt
flush ttl (k ∷ ks) = do execute (map (λ j. expire j ttl) (k ∷ ks)); ret tt

-- `for k in scan: batch.append(k); if len(batch) >= limit: …; if batch: …`
unfoldable pub expire_in_batches : ℕ → ℕ → List Key → List Key → Cached (Unit {0})
unfolding flush
expire_in_batches limit ttl batch [] = flush ttl batch
expire_in_batches limit ttl batch (k ∷ ks) = elim (leb limit (length (batch ++ k ∷ []))) [
  | true ↦ (do flush ttl (batch ++ k ∷ []); expire_in_batches limit ttl [] ks)
  | false ↦ expire_in_batches limit ttl (batch ++ k ∷ []) ks
]

-- `int(meta.get("show_id") or 0) == sid` of the document at a hold key
abbrev of_show : ℕ → Option CacheValue → Bool
of_show sid none = false
of_show sid (some v) = elim v [
  | num n ↦ false
  | set_of ms ↦ false
  | doc d ↦ elim d [ text s ↦ false | meta m ↦ m.show_id == sid | confirmed_seats cs ↦ false ]
]

abbrev append_if : Bool → List Key → Key → List Key
append_if true batch k = batch ++ k ∷ []
append_if false batch k = batch

unfoldable pub expire_metas : ℕ → ℕ → ℕ → List Key → List String → Cached (Unit {0})
unfolding flush
expire_metas limit ttl sid batch [] = flush ttl batch
expire_metas limit ttl sid batch (ref ∷ refs) = do
  raw ← Safe.get (hold_meta ref)
  let batch' = append_if (of_show sid raw) batch (hold_meta ref)
  elim (leb limit (length batch')) [
    | true ↦ (do flush ttl batch'; expire_metas limit ttl sid [] refs)
    | false ↦ expire_metas limit ttl sid batch' refs
  ]

expire_all : ℕ → ℕ → Scan → Cached (Unit {0})
unfolding expire_in_batches expire_metas
expire_all sid ttl scan = do
  execute (expire (hold sid) ttl ∷ expire (hold_rev sid) ttl ∷ expire (remain sid) ttl ∷ [])
  expire_in_batches 1000 ttl [] scan.seat_keys
  expire_metas 500 ttl sid [] scan.meta_refs

unfoldable pub expire_hold_cache_on_soldout : Config → Scan → ℕ → Cached (Unit {0})
unfolding expire_all
expire_hold_cache_on_soldout config scan sid =
    if sid == 0
    then ret tt
    else if config.soldout_ttl == 0
    then ret tt
    else expire_all sid config.soldout_ttl scan
