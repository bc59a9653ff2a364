-- ===== src/Strings.antt =====
-- Go's strings package as the source uses it, on the runes of a valid UTF-8 string. Of the letters
-- outside ASCII, ToLower is written out for the two whose lower case is ASCII; every other goes to a
-- letter outside ASCII, and stands here for itself.
pub mod Trim
pub mod Split
use robi_net.Base.{
  ℕ, zero, suc, ◌+◌, ◌/◌, ◌%◌, Bool, true, false, not, ◌&&◌, ◌||◌, List, [], ◌∷◌, ◌++◌, map, Option,
  none, some, Text, is_empty, equal, leb, ltb, ◌==◌, if◌then◌else◌,
}

abbrev pub between : ℕ → ℕ → ℕ → Bool
between lo hi c = leb lo c && leb c hi

-- `unicode.ToLower`
unfoldable pub lower_rune : ℕ → ℕ
lower_rune c =
    if between b'A' b'Z' c
    then c + 32
    else if c == 0x130
    then b'i'
    else if c == 0x212a
    then b'k'
    else c

unfoldable pub to_lower : Text → Text
to_lower = map lower_rune

-- `unicode.IsSpace`
unfoldable pub is_space : ℕ → Bool
is_space c =
    between 9 13 c
    || c == 32
    || c == 0x85
    || c == 0xa0
    || c == 0x1680
    || between 0x2000 0x200a c
    || between 0x2028 0x2029 c
    || c == 0x202f
    || c == 0x205f
    || c == 0x3000

unfoldable pub trim_left : (ℕ → Bool) → Text → Text
trim_left p [] = []
trim_left p (c ∷ cs) = let rest = trim_left p cs in if p c then rest else c ∷ cs

unfoldable pub trim_right : (ℕ → Bool) → Text → Text
trim_right p [] = []
trim_right p (c ∷ cs) = let rest = trim_right p cs in if p c && is_empty rest then [] else c ∷ rest

-- `TrimSpace`
unfoldable pub trim_space : Text → Text
unfolding trim_left trim_right is_space
trim_space s = trim_left is_space (trim_right is_space s)

-- `TrimSuffix(s, ".")`
unfoldable pub trim_dot : Text → Text
trim_dot [] = []
trim_dot (c ∷ cs) = if c == b'.' && is_empty cs then [] else c ∷ trim_dot cs

-- The bytes of a rune, and `len`.
abbrev pub rune_bytes : ℕ → ℕ
rune_bytes c = if ltb c 0x80 then 1 else if ltb c 0x800 then 2 else if ltb c 0x10000 then 3 else 4

unfoldable pub byte_length : Text → ℕ
byte_length [] = 0
byte_length (c ∷ cs) = rune_bytes c + byte_length cs

-- Puts a rune on the first of the parts.
abbrev pub onto_first : ℕ → List Text → List Text
onto_first c [] = (c ∷ []) ∷ []
onto_first c (p ∷ ps) = (c ∷ p) ∷ ps

-- `Split(s, ".")`
unfoldable pub split_dots : Text → List Text
split_dots [] = [] ∷ []
split_dots (c ∷ cs) = let rest = split_dots cs in if c == b'.' then [] ∷ rest else onto_first c rest

-- `Join(parts, ".")`
unfoldable pub join_dots : List Text → Text
join_dots [] = []
join_dots (p ∷ []) = p
join_dots (p ∷ q ∷ ps) = p ++ (b'.' ∷ join_dots (q ∷ ps))

-- Whether the last rune is `c`.
unfoldable pub ends_in : ℕ → Text → Bool
ends_in c [] = false
ends_in c (x ∷ xs) = if is_empty xs then x == c else ends_in c xs

unfoldable pub starts_in : ℕ → Text → Bool
starts_in c [] = false
starts_in c (x ∷ xs) = x == c

-- `HasPrefix`
unfoldable pub has_prefix : Text → Text → Bool
has_prefix s [] = true
has_prefix [] (p ∷ ps) = false
has_prefix (c ∷ cs) (p ∷ ps) = c == p && has_prefix cs ps

digits : ℕ → ℕ → Text → Text
digits zero n acc = acc
digits (suc fuel) n acc =
    let more = digits fuel (n / 10) ((n % 10 + b'0') ∷ acc) in
    if ltb n 10 then (n + b'0') ∷ acc else more

-- `strconv.Itoa`; a number has fewer digits than its value plus one.
unfoldable pub show_number : ℕ → Text
unfolding digits
show_number n = digits (suc n) n []
