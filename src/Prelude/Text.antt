-- ===== src/Prelude/Text.antt =====
-- Python's strip(), upper() and lower(), of ASCII text as its list of codes.
pub mod Casing
use Prim.Native.Nat.{ℕ, ◌+◌, ◌-◌}
use Prim.Native.Char.{code}
use Prim.Native.String as Text
use Prim.Native.String.{String}
use mathlib.Core.Bool.{Bool, true, false, ◌&&◌, ◌||◌}
use mathlib.Core.List.{List, [], ◌∷◌, reverse, map}
use awstest.Prelude.Tests.{leb, ◌==◌, if◌then◌else◌}

abbrev pub codes : String → List ℕ
codes Text.[] = []
codes (Text.◌∷◌ c s) = code c ∷ codes s

unfoldable pub is_space : ℕ → Bool
is_space c = c == 32 || (leb 9 c && leb c 13) || (leb 28 c && leb c 31)

unfoldable pub drop_spaces : List ℕ → List ℕ
drop_spaces [] = []
drop_spaces (c ∷ cs) = let rest = drop_spaces cs in if is_space c then rest else c ∷ cs

unfoldable pub strip : List ℕ → List ℕ
unfolding drop_spaces is_space
strip cs = reverse (drop_spaces (reverse (drop_spaces cs)))

unfoldable pub to_upper : ℕ → ℕ
to_upper c = if leb b'a' c && leb c b'z' then c - 32 else c

unfoldable pub to_lower : ℕ → ℕ
to_lower c = if leb b'A' c && leb c b'Z' then c + 32 else c

unfoldable pub same_codes : List ℕ → List ℕ → Bool
same_codes [] [] = true
same_codes (c ∷ cs) (d ∷ ds) = c == d && same_codes cs ds
same_codes _ _ = false

-- `s.strip().upper() == t`, `s.strip().lower() == t`
unfoldable pub is_upper : String → String → Bool
unfolding strip to_upper same_codes
is_upper s t = same_codes (map to_upper (strip (codes s))) (codes t)

unfoldable pub is_lower : String → String → Bool
unfolding strip to_lower same_codes
is_lower s t = same_codes (map to_lower (strip (codes s))) (codes t)
