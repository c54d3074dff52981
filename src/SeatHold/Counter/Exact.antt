-- ===== src/SeatHold/Counter/Exact.antt =====
-- What the counter's scripts compute.
use awstest.Prelude.{
  ℕ, ◌+◌, ◌-◌, ◌<◌, ◌≡◌, ap, Bool, true, false, Option, some, [], ◌∷◌, arith, ltb, if◌then◌else◌,
  ◌≢◌, ◌∙◌,
}
use awstest.Prelude.Int.{ℤ, pos, negsuc, pos_part, neg_part, ◌-ℤ◌, ◌+ℤ◌}
use awstest.Redis.Commands.{Entry, num, integer, apply, answer, after, update}
use awstest.Redis.Program.{serve, run}
use awstest.Redis.Simulation.{serve_store, result-run, look-run}
use awstest.Redis.Spares.{value_of, run-Spares}
use awstest.Redis.Pipeline.{result-ends}
use awstest.Cache.Safe as Safe
use awstest.Cache.Safe.{Cached}
use awstest.Cache.{Key, remain, remain_dirty, Doc, Member, Key-discrete, Member-discrete}
use awstest.SeatHold.Views.{CacheStore, Server, on_store, value_at}
use awstest.SeatHold.Config.{Config, Scan}
use awstest.SeatHold.Counter.{
  clamp, adjust_script, decrease_script, lua_number, mark_dirty, adjusted, decreased, not_enough,
  adjust, adjust_remain, try_decrease_remain_if_enough,
}
use awstest.SeatHold.Counter.Sparing.{adjusted-Spares, decreased-Spares}

abbrev pub counted : ℕ → Option ℕ → Entry Doc Member
counted n ttl = record { value = num (pos n); ttl = ttl }

module _ (s : CacheStore) (k : Key) (cur : ℕ) (t : Option ℕ) (e : s k ≡ some (counted cur t)) where
  decrease_reply :
      (n : ℕ)
      → 0 < n
      → (serve_store Key-discrete Member-discrete (decrease_script k n) s).0
        ≡ integer (if ltb cur n then negsuc 0 else pos (cur - n)) ∷ []
  unfolding decrease_script clamp lua_number serve apply answer after update ◌+ℤ◌ ◌-ℤ◌
  decrease_reply n h = ground arith

  decrease_store :
      (n : ℕ)
      → 0 < n
      → value_of ((serve_store Key-discrete Member-discrete (decrease_script k n) s).1 k)
        ≡ some (num (pos (if ltb cur n then cur else cur - n)))
  unfolding decrease_script clamp lua_number serve apply answer after update ◌+ℤ◌ ◌-ℤ◌
  decrease_store n h = ground arith

  -- The clamp at zero is the truncated difference.
  adjust_reply :
      (delta : ℤ)
      → (serve_store Key-discrete Member-discrete (adjust_script k delta) s).0
        ≡ integer (pos (cur + pos_part delta - neg_part delta)) ∷ []
  unfolding adjust_script clamp serve apply answer after update ◌+ℤ◌
  adjust_reply delta = ground arith

  adjust_store :
      (delta : ℤ)
      → value_of ((serve_store Key-discrete Member-discrete (adjust_script k delta) s).1 k)
        ≡ some (num (pos (cur + pos_part delta - neg_part delta)))
  unfolding adjust_script clamp serve apply answer after update ◌+ℤ◌
  adjust_store delta = ground arith

module _ (config : Config) (scan : Scan) (sid : ℕ) where
  key≢ : remain_dirty ≢ remain sid
  key≢ p = cc

  adjusted_run :
      (delta : ℤ) (ttl : ℕ) (v : ℤ) (u : CacheStore)
      → let o = on_store (adjusted config scan sid delta ttl v) [] u in
        (o.result ≡ v) × (value_of (o.db (remain sid)) ≡ value_of (u (remain sid)))
  unfolding adjusted
  adjusted_run delta ttl v u = (
    result-ends Key-discrete Member-discrete (mark_dirty sid ttl) _ v [] u,
    run-Spares Key-discrete Member-discrete (remain sid) _ [] u
        (adjusted-Spares (remain sid) config scan sid key≢ delta ttl v),
  )

  decreased_run :
      (ttl : ℕ) (v : ℤ) (u : CacheStore)
      → let o = on_store (decreased config scan sid ttl v) [] u in
        (o.result ≡ (true, pos_part v)) × (value_of (o.db (remain sid)) ≡ value_of (u (remain sid)))
  unfolding decreased
  decreased_run ttl v u = (
    result-ends Key-discrete Member-discrete (mark_dirty sid ttl) _ (true, pos_part v) [] u,
    run-Spares Key-discrete Member-discrete (remain sid) _ [] u
        (decreased-Spares (remain sid) config scan sid key≢ ttl v),
  )

  not_enough_run :
      (u : CacheStore) (n : ℕ)
      → value_of (u (remain sid)) ≡ some (num (pos n))
      → let o = on_store (not_enough sid) [] u in
        (o.result ≡ (false, n)) × (value_of (o.db (remain sid)) ≡ some (num (pos n)))
  unfolding not_enough Safe.get run serve apply answer after update
  not_enough_run u n h = ground arith

  module _ (s : CacheStore) (cur : ℕ) (t : Option ℕ)
      (e : s (remain sid) ≡ some (counted cur t)) where
    try_decrease_run :
        (n ttl : ℕ)
        → 0 < sid
        → 0 < n
        → let o = on_store (try_decrease_remain_if_enough config scan sid n ttl) [] s in
          (o.result ≡ (if ltb cur n then (false, cur) else (true, cur - n)))
          × (value_of (o.db (remain sid)) ≡ some (num (pos (if ltb cur n then cur else cur - n))))
    unfolding try_decrease_remain_if_enough Safe.eval run
    try_decrease_run n ttl p q = ground (
      arith,
      decrease_reply s (remain sid) cur t e n,
      decrease_store s (remain sid) cur t e n,
      decreased_run ttl (pos (cur - n)) u,
      not_enough_run u cur,
    )
      where
        u : CacheStore
        u = (serve_store Key-discrete Member-discrete (decrease_script (remain sid) n) s).1

    adjust_remain_run :
        (delta : ℤ) (ttl : ℕ)
        → 0 < sid
        → 0 < pos_part delta + neg_part delta
        → let o = on_store (adjust_remain config scan sid delta ttl) [] s in
          (o.result ≡ pos (cur + pos_part delta - neg_part delta))
          × (value_of (o.db (remain sid))
              ≡ some (num (pos (cur + pos_part delta - neg_part delta))))
    unfolding adjust_remain adjust Safe.eval run
    adjust_remain_run delta ttl p q = ground (
      arith,
      adjust_reply s (remain sid) cur t e delta,
      adjust_store s (remain sid) cur t e delta,
      adjusted_run delta ttl (pos (cur + pos_part delta - neg_part delta)) u,
    )
      where
        u : CacheStore
        u = (serve_store Key-discrete Member-discrete (adjust_script (remain sid) delta) s).1

module _ (r : Server) (config : Config) (scan : Scan) (sid : ℕ) (d : r.Db) (cur : ℕ)
    (t : Option ℕ) where
  -- With a counter of `cur`, a request for `n` seats succeeds exactly if there are `n`, and then
  -- takes them off; otherwise it leaves the counter and reports it.
  pub try_decrease-exact :
      (n ttl : ℕ)
      → r.look d (remain sid) ≡ some (counted cur t)
      → 0 < sid
      → 0 < n
      → let o = run r (try_decrease_remain_if_enough config scan sid n ttl) [] d in
        (o.result ≡ (if ltb cur n then (false, cur) else (true, cur - n)))
        × (value_at (r.look o.db) (remain sid)
            ≡ some (num (pos (if ltb cur n then cur else cur - n))))
  try_decrease-exact n ttl e p q =
      let o = try_decrease_run config scan sid (r.look d) cur t e n ttl p q in
      (result-run r m [] d ∙ o.0, ap (λ s. value_at s (remain sid)) (look-run r m [] d) ∙ o.1)
    where
      m : Cached (Bool × ℕ)
      m = try_decrease_remain_if_enough config scan sid n ttl

  -- An adjustment adds its delta to the counter, stops at zero, and returns the new value.
  pub adjust_remain-exact :
      (delta : ℤ) (ttl : ℕ)
      → r.look d (remain sid) ≡ some (counted cur t)
      → 0 < sid
      → 0 < pos_part delta + neg_part delta
      → let o = run r (adjust_remain config scan sid delta ttl) [] d in
        (o.result ≡ pos (cur + pos_part delta - neg_part delta))
        × (value_at (r.look o.db) (remain sid)
            ≡ some (num (pos (cur + pos_part delta - neg_part delta))))
  adjust_remain-exact delta ttl e p q =
      let o = adjust_remain_run config scan sid (r.look d) cur t e delta ttl p q in
      (result-run r m [] d ∙ o.0, ap (λ s. value_at s (remain sid)) (look-run r m [] d) ∙ o.1)
    where
      m : Cached ℤ
      m = adjust_remain config scan sid delta ttl
