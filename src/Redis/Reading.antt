-- ===== src/Redis/Reading.antt =====
-- A pipeline of GET commands: it answers what the keys hold, and changes nothing.
use awstest.Prelude.{arith, some, ◌≡◌, refl, ap, ◌∙◌, List, [], ◌∷◌, map}
use awstest.Redis.Commands.{Value, num, doc, set_of, value, Store, Reply, get, apply, answer}
use awstest.Redis.Pipeline.{replies, after_all}
use awstest.Redis.Spares.{value_of, apply-get}

abbrev pub Plain : {D M : Type 0} → Value D M → Type 0
Plain (num n) = Unit
Plain (doc d) = Unit
Plain (set_of ms) = ⊥

module _ {K D M : Type 0} (key : Discrete K) (member : Discrete M) where
  abbrev pub read : Store K D M → K → Reply D M
  read s k = answer key member (get k) (s k)

  pub after_all-gets : (ks : List K) (s : Store K D M) → after_all key member (map get ks) s ≡ s
  unfolding after_all
  after_all-gets [] s = refl
  after_all-gets (k ∷ ks) s = after_all-gets ks _ ∙ apply-get key member k s

  pub replies-gets :
      (ks : List K) (s : Store K D M) → replies key member (map get ks) s ≡ map (read s) ks
  unfolding replies apply
  replies-gets [] s = refl
  replies-gets (k ∷ ks) s =
      ap (λ rs. read s k ∷ rs)
        (ap (replies key member (map get ks)) (apply-get key member k s) ∙ replies-gets ks s)

  -- A key that holds a number or a document.
  pub get-reply :
      (k : K) (s : Store K D M) (d : Value D M)
      → Plain d
      → value_of (s k) ≡ some d
      → (apply key member (get k) s).0 ≡ value d
  unfolding apply answer
  get-reply k s (num n) p h = ground arith
  get-reply k s (doc d) p h = ground arith
  get-reply k s (set_of ms) p h = absurd p
