-- ===== src/Prelude/Text/Casing.antt =====
-- Which texts are a given word of capital letters, after strip() and upper().
use Prim.Native.Nat.{ℕ, ◌+◌, ◌≤◌}
use Prim.Native.String.{String}
use mathlib.Core.Path.{◌≡◌, refl, sym, ap, subst, ◌∙◌}
use mathlib.Core.Logic.{◌⊎◌, inl, inr, ◌↔◌}
use mathlib.Core.Bool.{Bool, true, false, ◌&&◌}
use mathlib.Core.List.{List, [], ◌∷◌, ◌++◌, reverse, map}
use mathlib.Core.List as List
use native.Mathlib.Omega.{arith}
use awstest.Prelude.Tests.{◌==◌, if◌then◌else◌}
use awstest.Prelude.Lists.{All, All-append}
use awstest.Prelude.Text.{codes, is_space, drop_spaces, strip, to_upper, same_codes, is_upper}

abbrev IsSpace : ℕ → Type 0
IsSpace c = (c ≡ 32) ⊎ (((9 ≤ c) × (c ≤ 13)) ⊎ ((28 ≤ c) × (c ≤ 31)))

abbrev pub IsCapital : ℕ → Type 0
IsCapital d = (65 ≤ d) × (d ≤ 90)

-- The codes of a word, each as it is or as a small letter.
abbrev Spells : List ℕ → List ℕ → Type 0
Spells [] [] = Unit
Spells (c ∷ cs) (d ∷ ds) = ((c ≡ d) ⊎ (c ≡ d + 32)) × Spells cs ds
Spells _ _ = ⊥

-- The text is the word in capital or small letters, with spaces around it.
pub record Says (s word : List ℕ) : Type 0 where
  before : List ℕ
  letters : List ℕ
  behind : List ℕ
  parts : s ≡ before ++ (letters ++ behind)
  spaces_before : All IsSpace before
  spaces_behind : All IsSpace behind
  spelled : Spells letters word

space : (c : ℕ) → is_space c ≡ true → IsSpace c
unfolding is_space
space c e = ground (arith, e)

no_space : (c : ℕ) → IsSpace c → is_space c ≡ true
unfolding is_space
no_space c (inl e) = ground (arith, e)
no_space c (inr (inl e)) = ground (arith, e)
no_space c (inr (inr e)) = ground (arith, e)

upper_of : (c d : ℕ) → IsCapital d → (c ≡ d) ⊎ (c ≡ d + 32) → to_upper c ≡ d
unfolding to_upper
upper_of c d h (inl e) = ground (arith, h, e)
upper_of c d h (inr e) = ground (arith, h, e)

letter_of : (c d : ℕ) → to_upper c ≡ d → (c ≡ d) ⊎ (c ≡ d + 32)
unfolding to_upper
letter_of c d e = ground (arith, e)

All-reverse : (P : ℕ → Type 0) (xs : List ℕ) → All P xs → All P (reverse xs)
All-reverse P [] h = tt
All-reverse P (x ∷ xs) h =
    subst (All P) (sym (List.reverse-append (x ∷ []) xs))
      (All-append P (reverse xs) (x ∷ []) (All-reverse P xs h.1) (h.0, tt))

-- What drop_spaces drops.
split : (cs : List ℕ) → (spaces : List ℕ) × (cs ≡ spaces ++ drop_spaces cs) × All IsSpace spaces
unfolding drop_spaces
split [] = ([], refl, tt)
split (c ∷ cs) = tested (is_space c) refl (split cs)
  where
    tested :
        (b : Bool)
        → is_space c ≡ b
        → (spaces : List ℕ) × (cs ≡ spaces ++ drop_spaces cs) × All IsSpace spaces
        → (spaces : List ℕ) × (c ∷ cs ≡ spaces ++ (if b then drop_spaces cs else c ∷ cs))
          × All IsSpace spaces
    tested true e (xs, p, h) = (c ∷ xs, ap (λ ys. c ∷ ys) p, (space c e, h))
    tested false e k = ([], refl, tt)

drop_spaces-behind : (xs ys : List ℕ) → All IsSpace xs → drop_spaces (xs ++ ys) ≡ drop_spaces ys
unfolding drop_spaces
drop_spaces-behind [] ys h = refl
drop_spaces-behind (x ∷ xs) ys h = rw (no_space x h.0) (drop_spaces-behind xs ys h.1)

abbrev IsSolid : ℕ → Type 0
IsSolid c = is_space c ≡ false

drop_spaces-solid : (xs : List ℕ) → All IsSolid xs → drop_spaces xs ≡ xs
unfolding drop_spaces
drop_spaces-solid [] h = refl
drop_spaces-solid (x ∷ xs) h = rw h.0 refl

drop_spaces-keeps :
    (xs ys : List ℕ)
    → All IsSolid xs
    → All IsSpace ys
    → (reverse (drop_spaces (xs ++ ys)) ≡ reverse ys ++ reverse xs)
      ⊎ ((xs ≡ []) × (drop_spaces (xs ++ ys) ≡ []))
unfolding drop_spaces
drop_spaces-keeps [] ys h g =
    inr (refl, ap drop_spaces (sym (List.append-nil ys)) ∙ drop_spaces-behind ys [] g)
drop_spaces-keeps (x ∷ xs) ys h g = inl (rw h.0 (List.reverse-append (x ∷ xs) ys))

strip-parts :
    (before letters behind : List ℕ)
    → All IsSpace before
    → All IsSolid letters
    → All IsSpace behind
    → strip (before ++ (letters ++ behind)) ≡ letters
unfolding strip
strip-parts before letters behind h l g =
    ap (λ xs. reverse (drop_spaces (reverse xs))) (drop_spaces-behind before (letters ++ behind) h)
    ∙ elim (drop_spaces-keeps letters behind l g) [
      | inl e ↦
          ap (λ xs. reverse (drop_spaces xs)) e
          ∙ ap reverse (
              drop_spaces-behind (reverse behind) (reverse letters) (All-reverse IsSpace behind g)
              ∙ drop_spaces-solid (reverse letters) (All-reverse IsSolid letters l))
          ∙ List.reverse-reverse letters
      | inr e ↦ ap (λ xs. reverse (drop_spaces (reverse xs))) e.1 ∙ sym e.0
    ]

strip-split : (s : List ℕ) (word : List ℕ) → Spells (strip s) word → Says s word
unfolding strip
strip-split s word h =
    let a = split s in
    let b = split (reverse (drop_spaces s)) in
    record {
      before = a.0;
      letters = strip s;
      behind = reverse b.0;
      parts =
          a.1
          ∙ ap (λ xs. a.0 ++ xs)
              (sym (List.reverse-reverse (drop_spaces s))
                ∙ ap reverse b.1
                ∙ List.reverse-append b.0 (drop_spaces (reverse (drop_spaces s))));
      spaces_before = a.2;
      spaces_behind = All-reverse IsSpace b.0 b.2;
      spelled = h;
    }

Spells-IsSolid : (cs ds : List ℕ) → All IsCapital ds → Spells cs ds → All IsSolid cs
unfolding is_space
Spells-IsSolid [] [] h k = tt
Spells-IsSolid [] (d ∷ ds) h k = tt
Spells-IsSolid (c ∷ cs) [] h k = absurd k
Spells-IsSolid (c ∷ cs) (d ∷ ds) h k = (solid k.0, Spells-IsSolid cs ds h.1 k.1)
  where
    solid : (c ≡ d) ⊎ (c ≡ d + 32) → IsSolid c
    solid (inl e) = ground (arith, e, h.0)
    solid (inr e) = ground (arith, e, h.0)

Spells-same :
    (cs ds : List ℕ) → All IsCapital ds → Spells cs ds → same_codes (map to_upper cs) ds ≡ true
unfolding same_codes
Spells-same [] [] h k = refl
Spells-same [] (d ∷ ds) h k = absurd k
Spells-same (c ∷ cs) [] h k = absurd k
Spells-same (c ∷ cs) (d ∷ ds) h k =
    rw (upper_of c d h.0 k.0) (rw (equal_self d) (Spells-same cs ds h.1 k.1))
  where
    equal_self : (a : ℕ) → (a == a) ≡ true
    equal_self a = ground arith

same-Spells : (cs ds : List ℕ) → same_codes (map to_upper cs) ds ≡ true → Spells cs ds
unfolding same_codes
same-Spells [] [] e = tt
same-Spells [] (d ∷ ds) e = cc
same-Spells (c ∷ cs) [] e = cc
same-Spells (c ∷ cs) (d ∷ ds) e = (letter_of c d (same_of e), same-Spells cs ds (rest_of e))
  where
    same_of : (to_upper c == d && same_codes (map to_upper cs) ds) ≡ true → to_upper c ≡ d
    same_of i = ground (arith, i)

    rest_of :
        (to_upper c == d && same_codes (map to_upper cs) ds) ≡ true
        → same_codes (map to_upper cs) ds ≡ true
    rest_of i = ground (arith, i)

pub is_upper-Says :
    (s word : String)
    → All IsCapital (codes word)
    → (is_upper s word ≡ true) ↔ Says (codes s) (codes word)
unfolding is_upper
is_upper-Says s word h = (
  λ e. strip-split (codes s) (codes word) (same-Spells (strip (codes s)) (codes word) e),
  λ k.
      ap (λ xs. same_codes (map to_upper xs) (codes word))
        (ap strip k.parts
          ∙ strip-parts k.before k.letters k.behind k.spaces_before
              (Spells-IsSolid k.letters (codes word) h k.spelled) k.spaces_behind)
      ∙ Spells-same k.letters (codes word) h k.spelled,
)
