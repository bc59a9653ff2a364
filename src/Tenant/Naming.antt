-- ===== src/Tenant/Naming.antt =====
-- internal/tenant/tenant.go: the names that the daemon makes up for what it admits.
use robi_net.Base.{
  ℕ, zero, suc, Bool, false, ◌&&◌, ◌||◌, List, [], ◌∷◌, ◌++◌, Option, none, some, Text, runes,
  lookup, is_empty, length, take, ltb, ◌==◌, if◌then◌else◌,
}
use robi_net.Result.{Result, ok, err, name_too_long}
use robi_net.Strings.{between, to_lower, trim_left, trim_right, trim_space, byte_length}
use robi_net.Hub.Types.{Kind, connector, tenant, owner, Record}
use robi_net.Hub.Name.{max_name_length}
use robi_net.Hub.CertName.{member_cert_name}

abbrev pub is_hyphen : ℕ → Bool
is_hyphen c = c == b'-'

-- The switch on one rune: what is written for it, where it may occur.
unfoldable pub fold_rune : ℕ → Option ℕ
fold_rune r =
    if between b'a' b'z' r || between b'0' b'9' r
    then some r
    else if r == b'-' || r == b'_' || r == b'.' || r == b' ' || r == b'/'
    then some b'-'
    else none

-- The loop over the runes.
unfoldable pub fold_runes : Text → Option Text
unfolding fold_rune
fold_runes [] = some []
fold_runes (r ∷ rs) = elim (fold_rune r) [
  | none ↦ none
  | some c ↦ elim (fold_runes rs) [ none ↦ none | some cs ↦ some (c ∷ cs) ]
]

-- `strings.Trim(s, "-")`
unfoldable pub trim_hyphens : Text → Text
unfolding trim_left trim_right
trim_hyphens s = trim_left is_hyphen (trim_right is_hyphen s)

-- `strings.Contains(s, "--")`
unfoldable pub has_double : Text → Bool
has_double [] = false
has_double (c ∷ []) = false
has_double (c ∷ d ∷ s) = (is_hyphen c && is_hyphen d) || has_double (d ∷ s)

-- `strings.ReplaceAll(s, "--", "-")`
unfoldable pub replace_doubles : Text → Text
replace_doubles [] = []
replace_doubles (c ∷ []) = c ∷ []
replace_doubles (c ∷ d ∷ s) =
    let behind = replace_doubles s in
    let further = replace_doubles (d ∷ s) in
    if is_hyphen c && is_hyphen d then b'-' ∷ behind else c ∷ further

-- The loop that replaces as long as there is something to replace.
unfoldable pub collapse : ℕ → Text → Text
unfolding has_double replace_doubles
collapse zero s = s
collapse (suc fuel) s =
    let rest = collapse fuel (replace_doubles s) in if has_double s then rest else s

-- The cut to the length of a label.
unfoldable pub cut_short : Text → Text
unfolding trim_hyphens
cut_short s = if ltb max_name_length (length s) then trim_hyphens (take max_name_length s) else s

-- `asLabel`; each round of the loop takes a rune away, so that as many rounds as runes are enough.
unfoldable pub as_label : Text → Option Text
unfolding fold_runes trim_hyphens collapse cut_short
as_label raw = elim (fold_runes (to_lower (trim_space raw))) [
  | none ↦ none
  | some s ↦
      let trimmed = trim_hyphens s in
      let name = cut_short (collapse (length trimmed) trimmed) in
      if is_empty name then none else some name
]

abbrev pub hint : Text → Record → Text
hint key r = elim (lookup key r.request.hints) [ none ↦ [] | some v ↦ v ]

-- The loop over the candidates.
unfoldable pub first_label : List Text → Option Text
unfolding as_label
first_label [] = none
first_label (c ∷ cs) = elim (as_label c) [ some name ↦ some name | none ↦ first_label cs ]

abbrev pub kind_text : Kind → Text
kind_text connector = runes "connector"
kind_text tenant = runes "tenant"
kind_text owner = runes "owner"

-- The names after the first try.
unfoldable pub single_name : Record → Text
unfolding first_label
single_name r =
    elim (first_label
      (hint (runes "service") r ∷ hint (runes "project") r ∷ hint (runes "hostname") r ∷ [])) [
        | some name ↦ name
        | none ↦ kind_text r.kind ++ b'-' ∷ take 8 r.fingerprint
      ]

-- `defaultName`; a fingerprint has more than eight digits.
unfoldable pub default_name : Record → Text
unfolding single_name as_label
default_name r = elim (as_label (hint (runes "environment") r)) [
  | none ↦ single_name r
  | some env ↦ elim (as_label (hint (runes "project") r)) [
    | none ↦ single_name r
    | some project ↦ env ++ b'.' ∷ project
  ]
]

-- `Suffix`
abbrev pub suffix : Text
suffix = runes "robinet"

-- `fitsInAName`
unfoldable pub fits_in_a_name : Kind → Text → Text → Result (Unit {0})
fits_in_a_name kind member inst =
    if ltb 253 (byte_length (member ++ b'.' ∷ (inst ++ b'.' ∷ suffix)))
    then err name_too_long
    else if ltb 253 (byte_length (member_cert_name kind member inst))
    then err name_too_long
    else ok tt
