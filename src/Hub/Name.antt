-- ===== src/Hub/Name.antt =====
-- internal/hub/name.go: the names of instances and members.
pub mod Label
pub mod Member
use robi_net.Base.{
  ℕ, Bool, true, false, not, ◌&&◌, ◌||◌, List, [], ◌∷◌, Text, is_empty, all_of, leb, ltb, ◌==◌,
  if◌then◌else◌,
}
use robi_net.Result.{
  Result, ok, err, ◌>>=◌, name_required, name_too_long, name_hyphen, name_character, name_is_id,
}
use robi_net.Strings.{
  between, to_lower, trim_space, trim_dot, byte_length, starts_in, ends_in, split_dots,
}

abbrev pub max_name_length : ℕ
max_name_length = 63

-- The runes that a name may hold.
abbrev pub is_name_rune : ℕ → Bool
is_name_rune c = between b'a' b'z' c || between b'0' b'9' c || c == b'-'

unfoldable pub is_hex : Text → Bool
is_hex = all_of (λ c. between b'0' b'9' c || between b'a' b'f' c)

-- The loop over the runes.
unfoldable pub check_runes : Text → Bool
check_runes [] = true
check_runes (c ∷ cs) = if is_name_rune c then check_runes cs else false

-- `ParseName`, from the folded name on.
unfoldable pub check_name : Text → Result Text
unfolding check_runes is_hex
check_name name =
    if is_empty name
    then err name_required
    else if ltb max_name_length (byte_length name)
    then err name_too_long
    else if starts_in b'-' name || ends_in b'-' name
    then err name_hyphen
    else if not (check_runes name)
    then err name_character
    else if byte_length name == 16 && is_hex name
    then err name_is_id
    else ok name

unfoldable pub parse_name : Text → Result Text
unfolding check_name
parse_name raw = check_name (to_lower (trim_space raw))

-- The loop over the labels of a member's name.
unfoldable pub check_labels : List Text → Result (Unit {0})
check_labels [] = ok tt
check_labels (l ∷ ls) =
    let rest = check_labels ls in elim (parse_name l) [ ok _ ↦ rest | err e ↦ err e ]

-- `ParseMemberName`, from the folded name on.
unfoldable pub check_member_name : Text → Result Text
check_member_name name =
    if is_empty name
    then err name_required
    else if ltb 253 (byte_length name)
    then err name_too_long
    else (check_labels (split_dots name) >>= λ _. ok name)

unfoldable pub parse_member_name : Text → Result Text
unfolding check_member_name
parse_member_name raw = check_member_name (trim_dot (to_lower (trim_space raw)))
