-- ===== src/Prelude/Text.antt =====
-- Text: whole strings are compared by `str_eq`; a string that is searched is read as its codes.
use Prim.Native.Nat.{ℕ, ◌-◌}
use Prim.Native.Char.{code}
use Prim.Native.String.{String}
use mathlib.Core.Bool.{Bool, true, false, ◌&&◌, ◌||◌}
use mathlib.Core.List.{List, [], ◌∷◌, map}
use text.Mathlib.Text.{◌==◌}
use radio_container.Prelude.Tests.{leb, ◌==◌ as nat_eq, if◌then◌else◌}

abbrev pub str_eq : String → String → Bool
str_eq a b = a == b

-- The code points of a text: its bytes, if it is ASCII.
abbrev pub codes : String → List ℕ
codes String.[] = []
codes (String.◌∷◌ c s) = code c ∷ codes s

-- `strings.HasPrefix`
abbrev pub has_prefix : List ℕ → List ℕ → Bool
has_prefix s [] = true
has_prefix [] (p ∷ ps) = false
has_prefix (c ∷ s) (p ∷ ps) = nat_eq c p && has_prefix s ps

-- `strings.Contains`
abbrev pub contains : List ℕ → List ℕ → Bool
contains [] t = has_prefix [] t
contains (c ∷ s) t = has_prefix (c ∷ s) t || contains s t

-- `unicode.ToUpper` on an ASCII byte
unfoldable pub upper_code : ℕ → ℕ
upper_code c = if leb b'a' c && leb c b'z' then c - 32 else c

-- `strings.ToUpper` on an ASCII text
unfoldable pub to_upper : List ℕ → List ℕ
unfolding upper_code
to_upper s = map upper_code s

push_first : ℕ → List (List ℕ) → List (List ℕ)
push_first c [] = (c ∷ []) ∷ []
push_first c (part ∷ parts) = (c ∷ part) ∷ parts

-- `strings.Split` at a separator of one byte
unfoldable pub split : ℕ → List ℕ → List (List ℕ)
unfolding push_first
split sep [] = [] ∷ []
split sep (c ∷ s) = let rest = split sep s in if nat_eq c sep then [] ∷ rest else push_first c rest
