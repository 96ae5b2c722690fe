-- ===== src/Text.antt =====
-- Go strings as their bytes, and the functions of the package strings that the program calls.
-- Case mapping is that of ASCII: a byte of 128 or more is left as it is.
pub mod Equality
pub mod Splitting
use Prim.Native.Char.{code}
use Prim.Native.String.{String}
use among_clusters.Prelude.{
  ℕ, ◌+◌, ◌-◌, ◌≡◌, refl, Bool, true, false, ◌&&◌, ◌||◌, List, [], ◌∷◌, ◌++◌, map, reverse, leb,
  nat_eq, if◌then◌else◌, length, take, drop,
}

abbrev pub Text : Type 0
Text = List ℕ

-- The code points of a literal, which are its bytes since every literal is ASCII.
abbrev pub codes : String → Text
codes String.[] = []
codes (String.◌∷◌ c s) = code c ∷ codes s

infix 50 ◌==◌
unfoldable pub ◌==◌ : Text → Text → Bool
[] == [] = true
[] == (d ∷ t) = false
(c ∷ s) == [] = false
(c ∷ s) == (d ∷ t) = nat_eq c d && (s == t)

-- s == ""
unfoldable pub is_empty : Text → Bool
is_empty [] = true
is_empty (c ∷ s) = false

-- strings.HasPrefix(s, p)
unfoldable pub has_prefix : Text → Text → Bool
has_prefix s [] = true
has_prefix [] (d ∷ p) = false
has_prefix (c ∷ s) (d ∷ p) = nat_eq c d && has_prefix s p

-- strings.TrimPrefix(s, p)
unfoldable pub trim_prefix : Text → Text → Text
unfolding has_prefix
trim_prefix s p = if has_prefix s p then drop (length p) s else s

-- strings.TrimSuffix(s, "/")
unfoldable pub trim_slash : Text → Text
trim_slash [] = []
trim_slash (c ∷ []) = if nat_eq c b'/' then [] else c ∷ []
trim_slash (c ∷ d ∷ s) = c ∷ trim_slash (d ∷ s)

-- strings.Contains(s, p)
unfoldable pub contains : Text → Text → Bool
unfolding has_prefix
contains [] p = has_prefix [] p
contains (c ∷ s) p = has_prefix (c ∷ s) p || contains s p

-- strings.ToLower(s)
unfoldable pub to_lower : Text → Text
to_lower [] = []
to_lower (c ∷ s) = (if leb b'A' c && leb c b'Z' then c + 32 else c) ∷ to_lower s

-- strings.NewReplacer("_", "-", ".", "-").Replace(s)
unfoldable pub dashes : Text → Text
dashes [] = []
dashes (c ∷ s) = (if nat_eq c b'_' || nat_eq c b'.' then b'-' else c) ∷ dashes s

-- strings.TrimLeft(s, "-")
unfoldable pub trim_left_dash : Text → Text
trim_left_dash [] = []
trim_left_dash (c ∷ s) = if nat_eq c b'-' then trim_left_dash s else c ∷ s

-- strings.Trim(s, "-")
unfoldable pub trim_dash : Text → Text
unfolding trim_left_dash
trim_dash s = reverse (trim_left_dash (reverse (trim_left_dash s)))

-- The parts of s between the bytes `sep`, with the part that is being read: strings.Split.
split_from : ℕ → Text → Text → List Text
split_from sep cur [] = cur ∷ []
split_from sep cur (c ∷ s) = elim (nat_eq c sep) [
  | true ↦ cur ∷ split_from sep [] s
  | false ↦ split_from sep (cur ++ c ∷ []) s
]

unfoldable pub split : Text → ℕ → List Text
unfolding split_from
split s sep = split_from sep [] s

-- The same, with at most `n + 1` parts: strings.SplitN(s, sep, n + 1).
split_n_from : ℕ → ℕ → Text → Text → List Text
split_n_from ℕ.zero sep cur s = (cur ++ s) ∷ []
split_n_from (ℕ.suc n) sep cur [] = cur ∷ []
split_n_from (ℕ.suc n) sep cur (c ∷ s) = elim (nat_eq c sep) [
  | true ↦ cur ∷ split_n_from n sep [] s
  | false ↦ split_n_from (ℕ.suc n) sep (cur ++ c ∷ []) s
]

unfoldable pub split_n : Text → ℕ → ℕ → List Text
unfolding split_n_from
split_n s sep n = split_n_from n sep [] s

-- strings.TrimRight(s, "/")
trim_left_slash : Text → Text
trim_left_slash [] = []
trim_left_slash (c ∷ s) = if nat_eq c b'/' then trim_left_slash s else c ∷ s

unfoldable pub trim_right_slash : Text → Text
unfolding trim_left_slash
trim_right_slash s = reverse (trim_left_slash (reverse s))

-- A white space of ASCII: tab, line feed, vertical tab, form feed, carriage return, or space.
unfoldable pub is_space : ℕ → Bool
is_space c = nat_eq c 32 || (leb 9 c && leb c 13)

trim_left_space : Text → Text
unfolding is_space
trim_left_space [] = []
trim_left_space (c ∷ s) = if is_space c then trim_left_space s else c ∷ s

-- strings.TrimSpace(s)
unfoldable pub trim_space : Text → Text
unfolding trim_left_space
trim_space s = reverse (trim_left_space (reverse (trim_left_space s)))
