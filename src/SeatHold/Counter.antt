-- ===== src/SeatHold/Counter.antt =====
-- The remain counter: `adjust_remain`, `try_decrease_remain_if_enough` and their two Lua scripts.
pub mod Sparing
pub mod Exact
use awstest.Prelude.{
  ℕ, Bool, true, false, Option, none, some, [], ◌∷◌, leb, ◌==◌, ◌&&◌, ◌||◌, if◌then◌else◌,
}
use awstest.Prelude.Int.{ℤ, pos, negsuc, pos_part, neg_part, ltb_ℤ, ◌-ℤ◌}
use awstest.Redis.Commands.{num, doc, set_of, nil, value, integer, flag, items, wrong_type}
use awstest.Redis.Commands as Commands
use awstest.Redis.Program.{ret, done, call, ◌>>=◌, ◌>>◌}
use awstest.Cache.{Key, remain, remain_dirty, show_member}
use awstest.Cache.Safe.{Cached, CacheReply, CacheScript, CacheValue, eval, sadd, expire}
use awstest.Cache.Safe as Safe
use awstest.SeatHold.Config.{Config, Scan}
use awstest.SeatHold.Expiry.{expire_hold_cache_on_soldout}

-- `if v < 0 then SET 0; v = 0 end; return v`
clamp : Key → CacheReply → CacheScript
clamp k (integer v) =
    if ltb_ℤ v (pos 0)
    then call (Commands.set k (num (pos 0)) false none) (λ _. done (integer (pos 0) ∷ []))
    else done (integer v ∷ [])
clamp k _ = done (wrong_type ∷ [])

-- _REMAIN_ADJUST_LUA
unfoldable pub adjust_script : Key → ℤ → CacheScript
unfolding clamp
adjust_script k delta = call (Commands.incrby k delta) (clamp k)

-- `tonumber(cur) or 0`
lua_number : CacheReply → ℤ
lua_number (value (num n)) = n
lua_number _ = pos 0

-- _REMAIN_DECR_IF_ENOUGH_LUA
decrease_script : Key → ℕ → CacheScript
unfolding clamp lua_number
decrease_script k n = call (Commands.get k) λ r.
    let cur = lua_number r in
    if n == 0
    then done (integer cur ∷ [])
    else if ltb_ℤ cur (pos n)
    then done (integer (negsuc 0) ∷ [])
    else call (Commands.incrby k (pos 0 -ℤ pos n)) (clamp k)

-- `int(x or 0)`
abbrev pub number_or_zero : Option ℤ → ℤ
number_or_zero none = pos 0
number_or_zero (some n) = n

abbrev pub int_or_zero : Option CacheValue → ℤ
int_or_zero none = pos 0
int_or_zero (some v) = elim v [ num n ↦ n | doc d ↦ pos 0 | set_of ms ↦ pos 0 ]

mark_dirty : ℕ → ℕ → Cached (Unit {0})
mark_dirty sid ttl = do
  sadd remain_dirty (show_member sid)
  if ttl == 0 then ret tt else do expire (remain sid) ttl; ret tt

when : Bool → Cached (Unit {0}) → Cached (Unit {0})
when true m = m
when false m = ret tt

pub adjusted : Config → Scan → ℕ → ℤ → ℕ → ℤ → Cached ℤ
unfolding mark_dirty when
adjusted config scan sid delta ttl v = do
  mark_dirty sid ttl
  when (leb (pos_part v) 0 && ltb_ℤ delta (pos 0)) (expire_hold_cache_on_soldout config scan sid)
  ret v

adjust : Config → Scan → ℕ → ℤ → ℕ → Cached ℤ
unfolding adjusted
adjust config scan sid delta ttl = do
  answer ← eval (adjust_script (remain sid) delta)
  adjusted config scan sid delta ttl (number_or_zero answer)

unfoldable pub adjust_remain : Config → Scan → ℕ → ℤ → ℕ → Cached ℤ
unfolding adjust
adjust_remain config scan sid delta ttl =
    if sid == 0 || (pos_part delta == 0 && neg_part delta == 0)
    then ret (pos 0)
    else adjust config scan sid delta ttl

pub not_enough : ℕ → Cached (Bool × ℕ)
not_enough sid = do cur ← Safe.get (remain sid); ret (false, pos_part (int_or_zero cur))

pub decreased : Config → Scan → ℕ → ℕ → ℤ → Cached (Bool × ℕ)
unfolding mark_dirty when
decreased config scan sid ttl v = do
  mark_dirty sid ttl
  when (leb (pos_part v) 0) (expire_hold_cache_on_soldout config scan sid)
  ret (true, pos_part v)

unfoldable pub try_decrease_remain_if_enough : Config → Scan → ℕ → ℕ → ℕ → Cached (Bool × ℕ)
unfolding decrease_script not_enough decreased
try_decrease_remain_if_enough config scan sid n ttl =
    if sid == 0 || n == 0 then ret (false, 0) else do
      answer ← eval (decrease_script (remain sid) n)
      let v = number_or_zero answer
      if ltb_ℤ v (pos 0) then not_enough sid else decreased config scan sid ttl v
