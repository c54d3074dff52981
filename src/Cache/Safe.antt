-- ===== src/Cache/Safe.antt =====
-- `_SafeRedisClient` and `_SafeRedisPipeline` of services/ticketing-was/cache/redis_client.py: one
-- function for each method. `none` of a request is the exception that the method catches.
pub mod Answers
use awstest.Prelude.{ℕ, Bool, true, false, Option, none, some, List, [], ◌∷◌, ◌||◌, if◌then◌else◌}
use awstest.Prelude.Int.{ℤ, pos}
use awstest.Redis.Commands.{Value, Command, Reply, nil, value, integer, flag, items, wrong_type}
use awstest.Redis.Program.{Client, ret, request, Script, pipeline}
use awstest.Cache.{Key, Doc, Member}

abbrev pub CacheValue : Type 0
CacheValue = Value Doc Member

abbrev pub CacheReply : Type 0
CacheReply = Reply Doc Member

abbrev pub CacheCommand : Type 0
CacheCommand = Command Key Doc Member

abbrev pub CacheScript : Type 0
CacheScript = Script Key Doc Member

abbrev pub Cached : Type 0 → Type 0
Cached = Client Key Doc Member

-- redis-py raises for a reply that is an error.
abbrev pub is_error : CacheReply → Bool
is_error wrong_type = true
is_error nil = false
is_error (value v) = false
is_error (integer n) = false
is_error (flag b) = false
is_error (items ms) = false

any_error : List CacheReply → Bool
any_error [] = false
any_error (r ∷ rs) = is_error r || any_error rs

-- execute() of a pipeline: an exception gives the empty list.
replies_or_none : Option (List CacheReply) → List CacheReply
unfolding any_error
replies_or_none none = []
replies_or_none (some rs) = if any_error rs then [] else rs

unfoldable pub execute : List CacheCommand → Cached (List CacheReply)
unfolding replies_or_none pipeline
execute cs = request (pipeline cs) (λ rs. ret (replies_or_none rs))

-- One command is a pipeline of one.
unfoldable pub one : {A : Type 0} → CacheCommand → A → (CacheReply → A) → Cached A
unfolding pipeline
one c default read = request (pipeline (c ∷ [])) λ rs. elim rs [
  | none ↦ ret default
  | some rs ↦ elim rs [ [] ↦ ret default | r ∷ more ↦ ret (read r) ]
]

as_value : CacheReply → Option CacheValue
as_value (value v) = some v
as_value _ = none

as_integer : ℤ → CacheReply → ℤ
as_integer default (integer n) = n
as_integer default _ = default

as_flag : Bool → CacheReply → Bool
as_flag default (flag b) = b
as_flag default _ = default

as_items : CacheReply → List Member
as_items (items ms) = ms
as_items _ = []

unfoldable pub get : Key → Cached (Option CacheValue)
unfolding one as_value
get k = one (Command.get k) none as_value

-- set without NX; its result is not read
unfoldable pub set : Key → CacheValue → Cached Bool
unfolding one as_flag
set k v = one (Command.set k v false none) true (as_flag false)

unfoldable pub setnx : Key → CacheValue → Cached Bool
unfolding one as_flag
setnx k v = one (Command.set k v true none) true (as_flag false)

unfoldable pub setex : Key → ℕ → CacheValue → Cached Bool
unfolding one as_flag
setex k ttl v = one (Command.set k v false (some ttl)) true (as_flag false)

unfoldable pub delete : Key → Cached ℤ
unfolding one as_integer
delete k = one (Command.delete k) (pos 0) (as_integer (pos 0))

unfoldable pub smembers : Key → Cached (List Member)
unfolding one as_items
smembers k = one (Command.smembers k) [] as_items

unfoldable pub sadd : Key → Member → Cached ℤ
unfolding one as_integer
sadd k m = one (Command.sadd k m) (pos 0) (as_integer (pos 0))

unfoldable pub srem : Key → Member → Cached ℤ
unfolding one as_integer
srem k m = one (Command.srem k m) (pos 0) (as_integer (pos 0))

unfoldable pub scard : Key → Cached ℤ
unfolding one as_integer
scard k = one (Command.scard k) (pos 0) (as_integer (pos 0))

unfoldable pub sismember : Key → Member → Cached Bool
unfolding one as_flag
sismember k m = one (Command.sismember k m) false (as_flag false)

unfoldable pub incr : Key → Cached ℤ
unfolding one as_integer
incr k = one (Command.incrby k (pos 1)) (pos 0) (as_integer (pos 0))

unfoldable pub expire : Key → ℕ → Cached Bool
unfolding one as_flag
expire k ttl = one (Command.expire k ttl) true (as_flag true)

-- eval(): the script's number, or None
script_number : Option (List CacheReply) → Option ℤ
script_number none = none
script_number (some []) = none
script_number (some (integer n ∷ more)) = some n
script_number (some (nil ∷ more)) = none
script_number (some (value v ∷ more)) = none
script_number (some (flag b ∷ more)) = none
script_number (some (items ms ∷ more)) = none
script_number (some (wrong_type ∷ more)) = none

unfoldable pub eval : CacheScript → Cached (Option ℤ)
unfolding script_number
eval p = request p (λ rs. ret (script_number rs))
