-- ===== src/SeatHold/Counter/Sparing.antt =====
-- The counter's operations change the counter and the dirty set, and no other value.
use awstest.Prelude.{ℕ, ◌≢◌, Bool, true, false, leb, ◌==◌, ◌&&◌, ◌||◌}
use awstest.Prelude.Int.{ℤ, pos, ltb_ℤ, pos_part, neg_part}
use awstest.Redis.Commands.{integer}
use awstest.Redis.Sends.{Sends, ScriptSends, bind-Sends, if-Sends, if-ScriptSends}
use awstest.Cache.{Key, remain, remain_dirty, show_member}
use awstest.Cache.Safe.{Cached, CacheReply}
use awstest.Cache.Sends.{SparesKey, eval-Sends, get-Sends, sadd-Sends, expire-Sends}
use awstest.SeatHold.Config.{Config, Scan}
use awstest.SeatHold.Expiry.Sparing.{soldout-Spares}
use awstest.SeatHold.Counter.{
  clamp, adjust_script, decrease_script, lua_number, mark_dirty, when, adjusted, adjust,
  adjust_remain, not_enough, decreased, try_decrease_remain_if_enough, number_or_zero,
}

module _ (j : Key) where
  clamp-Spares : (k : Key) (r : CacheReply) → k ≢ j → ScriptSends (SparesKey j) (clamp k r)
  unfolding clamp
  clamp-Spares k (integer v) h = if-ScriptSends (SparesKey j) (ltb_ℤ v (pos 0)) _ _ (h, λ _. tt) tt
  clamp-Spares k r h = tt

  pub adjust_script-Spares :
      (k : Key) (delta : ℤ) → k ≢ j → ScriptSends (SparesKey j) (adjust_script k delta)
  unfolding adjust_script
  adjust_script-Spares k delta h = (h, λ r. clamp-Spares k r h)

  decrease_script-Spares :
      (k : Key) (n : ℕ) → k ≢ j → ScriptSends (SparesKey j) (decrease_script k n)
  unfolding decrease_script
  decrease_script-Spares k n h = (
    tt,
    λ r. if-ScriptSends (SparesKey j) (n == 0) _ _ tt (
        if-ScriptSends (SparesKey j) (ltb_ℤ (lua_number r) (pos n)) _ _ tt
          (h, λ v. clamp-Spares k v h)),
  )

  mark_dirty-Spares : (sid ttl : ℕ) → remain_dirty ≢ j → Sends (SparesKey j) (mark_dirty sid ttl)
  unfolding mark_dirty
  mark_dirty-Spares sid ttl h =
      bind-Sends (SparesKey j) _ _ (sadd-Sends (SparesKey j) remain_dirty (show_member sid) h) λ _.
        if-Sends (SparesKey j) (ttl == 0) _ _ tt
          (bind-Sends (SparesKey j) _ _ (expire-Sends (SparesKey j) (remain sid) ttl tt) (λ _. tt))

  when-Spares :
      (b : Bool) (m : Cached (Unit {0})) → Sends (SparesKey j) m → Sends (SparesKey j) (when b m)
  unfolding when
  when-Spares true m h = h
  when-Spares false m h = tt

  module _ (config : Config) (scan : Scan) (sid : ℕ) (dirty : remain_dirty ≢ j) where
    pub adjusted-Spares :
        (delta : ℤ) (ttl : ℕ) (v : ℤ) → Sends (SparesKey j) (adjusted config scan sid delta ttl v)
    unfolding adjusted
    adjusted-Spares delta ttl v =
        bind-Sends (SparesKey j) _ _ (mark_dirty-Spares sid ttl dirty) λ _.
          bind-Sends (SparesKey j) _ _
            (when-Spares (leb (pos_part v) 0 && ltb_ℤ delta (pos 0)) _
              (soldout-Spares j config scan sid))
            (λ _. tt)

    pub decreased-Spares : (ttl : ℕ) (v : ℤ) → Sends (SparesKey j) (decreased config scan sid ttl v)
    unfolding decreased
    decreased-Spares ttl v = bind-Sends (SparesKey j) _ _ (mark_dirty-Spares sid ttl dirty) λ _.
        bind-Sends (SparesKey j) _ _
          (when-Spares (leb (pos_part v) 0) _ (soldout-Spares j config scan sid)) (λ _. tt)

  pub not_enough-Spares : (sid : ℕ) → Sends (SparesKey j) (not_enough sid)
  unfolding not_enough
  not_enough-Spares sid =
      bind-Sends (SparesKey j) _ _ (get-Sends (SparesKey j) (remain sid) tt) (λ _. tt)

  module _ (config : Config) (scan : Scan) (sid : ℕ) (counter : remain sid ≢ j)
      (dirty : remain_dirty ≢ j) where
    pub adjust_remain-Spares :
        (delta : ℤ) (ttl : ℕ) → Sends (SparesKey j) (adjust_remain config scan sid delta ttl)
    unfolding adjust_remain adjust
    adjust_remain-Spares delta ttl =
        if-Sends (SparesKey j) (sid == 0 || (pos_part delta == 0 && neg_part delta == 0)) _ _ tt (
          bind-Sends (SparesKey j) _ _
            (eval-Sends (SparesKey j) _ (adjust_script-Spares (remain sid) delta counter))
            λ answer. adjusted-Spares config scan sid dirty delta ttl (number_or_zero answer))

    pub try_decrease-Spares :
        (n ttl : ℕ) → Sends (SparesKey j) (try_decrease_remain_if_enough config scan sid n ttl)
    unfolding try_decrease_remain_if_enough
    try_decrease-Spares n ttl = if-Sends (SparesKey j) (sid == 0 || n == 0) _ _ tt (
        bind-Sends (SparesKey j) _ _
          (eval-Sends (SparesKey j) _ (decrease_script-Spares (remain sid) n counter))
          λ answer.
            if-Sends (SparesKey j) (ltb_ℤ (number_or_zero answer) (pos 0)) _ _
              (not_enough-Spares sid)
              (decreased-Spares config scan sid dirty ttl (number_or_zero answer)))
