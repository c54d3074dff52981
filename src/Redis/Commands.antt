-- ===== src/Redis/Commands.antt =====
-- The commands, and their documented effect on the keys and reply.
use awstest.Prelude.{
  ℕ, Bool, true, false, ◌&&◌, Option, none, some, List, [], ◌∷◌, ite, length, if◌then◌else◌,
}
use awstest.Prelude.Int.{ℤ, pos, ◌+ℤ◌}

-- A key holds a number, a document (a text: a plain one, or JSON), or a set.
pub data Value (D M : Type 0) : Type 0 where
  num : ℤ → Value D M
  doc : D → Value D M
  set_of : List M → Value D M

-- `ttl` is the time to live, in seconds, that the last command gave the key; `none` is no expiry.
pub record Entry (D M : Type 0) : Type 0 where
  pub value : Value D M
  pub ttl : Option ℕ

abbrev pub Store : Type 0 → Type 0 → Type 0 → Type 0
Store K D M = K → Option (Entry D M)

pub data Command (K D M : Type 0) : Type 0 where
  get : K → Command K D M
  -- SET key value, with NX if the flag is set, and with EX if there is a time
  set : K → Value D M → Bool → Option ℕ → Command K D M
  delete : K → Command K D M
  incrby : K → ℤ → Command K D M
  expire : K → ℕ → Command K D M
  persist : K → Command K D M
  sadd srem sismember : K → M → Command K D M
  scard smembers : K → Command K D M

pub data Reply (D M : Type 0) : Type 0 where
  nil : Reply D M
  value : Value D M → Reply D M
  integer : ℤ → Reply D M
  flag : Bool → Reply D M
  items : List M → Reply D M
  wrong_type : Reply D M

module _ {A : Type 0} (dec : Discrete A) where
  pub contains : A → List A → Bool
  contains a [] = false
  contains a (x ∷ xs) = ite (dec x a) true (contains a xs)

  pub insert : A → List A → List A
  insert a xs = if contains a xs then xs else a ∷ xs

  pub remove : A → List A → List A
  remove a [] = []
  remove a (x ∷ xs) = let rest = remove a xs in ite (dec x a) rest (x ∷ rest)

-- The value of a key, for the commands that read it as a number, a set or anything.
module _ {D M : Type 0} where
  pub as_number : Option (Entry D M) → Option ℤ
  as_number none = some (pos 0)
  as_number (some e) = elim e.value [ num n ↦ some n | doc d ↦ none | set_of ms ↦ none ]

  pub as_set : Option (Entry D M) → Option (List M)
  as_set none = some []
  as_set (some e) = elim e.value [ num n ↦ none | doc d ↦ none | set_of ms ↦ some ms ]

  pub ttl_of : Option (Entry D M) → Option ℕ
  ttl_of none = none
  ttl_of (some e) = e.ttl

  pub present : Option (Entry D M) → Bool
  present none = false
  present (some e) = true

  -- A set without members is no key.
  abbrev pub stored_set : List M → Option ℕ → Option (Entry D M)
  stored_set [] ttl = none
  stored_set (m ∷ ms) ttl = some (record { value = set_of (m ∷ ms); ttl = ttl })

  with_ttl : Option ℕ → Option (Entry D M) → Option (Entry D M)
  with_ttl ttl none = none
  with_ttl ttl (some e) = some (record e { ttl = ttl })

  value_reply : Option (Entry D M) → Reply D M
  value_reply none = nil
  value_reply (some e) = elim e.value [
    | num n ↦ value (num n)
    | doc d ↦ value (doc d)
    | set_of ms ↦ wrong_type
  ]

  number_reply : ℤ → Option ℤ → Reply D M
  number_reply n none = wrong_type
  number_reply n (some m) = integer (m +ℤ n)

module _ {K D M : Type 0} (key : Discrete K) (member : Discrete M) where
  unfoldable pub update : K → Option (Entry D M) → Store K D M → Store K D M
  update k e s j = ite (key k j) e (s j)

  -- What one key becomes.
  unfoldable pub after : Command K D M → Option (Entry D M) → Option (Entry D M)
  unfolding with_ttl insert remove contains as_number as_set ttl_of present
  after (get k) e = e
  after (set k v nx ex) e = if nx && present e then e else some (record { value = v; ttl = ex })
  after (delete k) e = none
  after (incrby k n) e = elim (as_number e) [
    | none ↦ e
    | some m ↦ some (record { value = num (m +ℤ n); ttl = ttl_of e })
  ]
  after (expire k ttl) e = with_ttl (some ttl) e
  after (persist k) e = with_ttl none e
  after (sadd k m) e = elim (as_set e) [
    | none ↦ e
    | some ms ↦ stored_set (insert member m ms) (ttl_of e)
  ]
  after (srem k m) e = elim (as_set e) [
    | none ↦ e
    | some ms ↦ stored_set (remove member m ms) (ttl_of e)
  ]
  after (sismember k m) e = e
  after (scard k) e = e
  after (smembers k) e = e

  abbrev pub target : Command K D M → K
  target (get k) = k
  target (set k v nx ex) = k
  target (delete k) = k
  target (incrby k n) = k
  target (expire k ttl) = k
  target (persist k) = k
  target (sadd k m) = k
  target (srem k m) = k
  target (sismember k m) = k
  target (scard k) = k
  target (smembers k) = k

  -- What the server answers.
  unfoldable pub answer : Command K D M → Option (Entry D M) → Reply D M
  unfolding value_reply number_reply contains as_number as_set ttl_of present
  answer (get k) e = value_reply e
  answer (set k v nx ex) e = if nx && present e then nil else flag true
  answer (delete k) e = integer (if present e then pos 1 else pos 0)
  answer (incrby k n) e = number_reply n (as_number e)
  answer (expire k ttl) e = flag (present e)
  answer (persist k) e = elim (ttl_of e) [ none ↦ flag false | some t ↦ flag true ]
  answer (sadd k m) e = elim (as_set e) [
    | none ↦ wrong_type
    | some ms ↦ integer (if contains member m ms then pos 0 else pos 1)
  ]
  answer (srem k m) e = elim (as_set e) [
    | none ↦ wrong_type
    | some ms ↦ integer (if contains member m ms then pos 1 else pos 0)
  ]
  answer (sismember k m) e = elim (as_set e) [
    | none ↦ wrong_type
    | some ms ↦ flag (contains member m ms)
  ]
  answer (scard k) e = elim (as_set e) [ none ↦ wrong_type | some ms ↦ integer (pos (length ms)) ]
  answer (smembers k) e = elim (as_set e) [ none ↦ wrong_type | some ms ↦ items ms ]

  unfoldable pub apply : Command K D M → Store K D M → Reply D M × Store K D M
  unfolding update
  apply c s = (answer c (s (target c)), update (target c) (after c (s (target c))) s)
