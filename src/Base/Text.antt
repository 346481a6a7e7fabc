-- ===== src/Base/Text.antt =====
-- Texts by their code points, and the character classes of the source's regular expressions.
use Prim.Native.Nat.{ℕ, zero, suc}
use Prim.Native.Char.{code}
use Prim.Native.String.{String}
use mathlib.Core.Bool.{Bool, true, false, ◌&&◌, ◌||◌}
use mathlib.Core.List.{List, [], ◌∷◌}
use dsh_runtime_kit.Base.Tests.{leb, ◌==◌}
use dsh_runtime_kit.Base.Lists.{all, length}

abbrev pub codes : String → List ℕ
codes String.[] = []
codes (String.◌∷◌ c s) = code c ∷ codes s

-- [0-9]
unfoldable pub is_digit : ℕ → Bool
is_digit c = leb b'0' c && leb c b'9'

-- [a-z]
unfoldable pub is_lower : ℕ → Bool
is_lower c = leb b'a' c && leb c b'z'

-- [A-Z]
unfoldable pub is_upper : ℕ → Bool
is_upper c = leb b'A' c && leb c b'Z'

-- [A-Za-z]
unfoldable pub is_letter : ℕ → Bool
unfolding is_lower is_upper
is_letter c = is_upper c || is_lower c

-- [A-Za-z0-9]
unfoldable pub is_alphanumeric : ℕ → Bool
unfolding is_letter is_digit
is_alphanumeric c = is_letter c || is_digit c

-- [0-9a-f]
unfoldable pub is_hex : ℕ → Bool
unfolding is_digit
is_hex c = is_digit c || (leb b'a' c && leb c b'f')

-- The rest of a text after a fixed prefix decides; without the prefix the answer is `false`.
unfoldable pub after_prefix : List ℕ → List ℕ → (List ℕ → Bool) → Bool
after_prefix [] s k = k s
after_prefix (p ∷ ps) [] k = false
after_prefix (p ∷ ps) (c ∷ s) k = p == c && after_prefix ps s k

-- At least n characters of a class stand at the head: `[class]{n,}`, not anchored.
unfoldable pub starts_with_run : ℕ → (ℕ → Bool) → List ℕ → Bool
starts_with_run zero p s = true
starts_with_run (suc n) p [] = false
starts_with_run (suc n) p (c ∷ s) = p c && starts_with_run n p s

-- Exactly n characters, all of a class: `^[class]{n}$`.
unfoldable pub is_run : ℕ → (ℕ → Bool) → List ℕ → Bool
is_run n p s = length s == n && all p s
