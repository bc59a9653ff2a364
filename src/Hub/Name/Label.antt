-- ===== src/Hub/Name/Label.antt =====
-- What `ParseName` accepts.
use robi_net.Base.{
  ℕ, ◌≤◌, ◌≡◌, ◌↔◌, refl, ap, ◌∙◌, true, false, not, [], ◌∷◌, Text, all_of, length, Bool-cases, inl,
  inr, arith,
}
use robi_net.Result.{ok}
use robi_net.Strings.{lower_rune, to_lower, is_space, trim_space, byte_length, starts_in, ends_in}
use robi_net.Strings.Trim.{to_lower_idem, trim_space-to_lower, trim_space_none}
use robi_net.Strings.Split.{has_no_dot}
use robi_net.Hub.Name.{is_name_rune, is_hex, check_runes, check_name, parse_name}

-- A DNS label that no instance id can be taken for.
pub record IsLabel (name : Text) : Type 0 where
  pub runes : all_of is_name_rune name ≡ true
  pub nonempty : 1 ≤ length name
  pub short : length name ≤ 63
  pub no_hyphen_first : starts_in b'-' name ≡ false
  pub no_hyphen_last : ends_in b'-' name ≡ false
  pub no_id : length name ≡ 16 → is_hex name ≡ false

check_runes-all_of : (s : Text) → check_runes s ≡ all_of is_name_rune s
unfolding check_runes
check_runes-all_of [] = refl
check_runes-all_of (c ∷ s) = ground (arith, check_runes-all_of s)

-- Such runes take a byte each.
pub byte_length-label : (s : Text) → all_of is_name_rune s ≡ true → byte_length s ≡ length s
unfolding byte_length
byte_length-label [] h = refl
byte_length-label (c ∷ s) h = ground (arith, byte_length-label s)

pub to_lower-label : (s : Text) → all_of is_name_rune s ≡ true → to_lower s ≡ s
unfolding to_lower lower_rune
to_lower-label [] h = refl
to_lower-label (c ∷ s) h = ground (arith, to_lower-label s)

name_rune_bounds : (c : ℕ) → is_name_rune c ≡ true → (45 ≤ c) × (c ≤ 122)
name_rune_bounds c h = ground arith

is_space-false : (c : ℕ) → 45 ≤ c → c ≤ 122 → is_space c ≡ false
unfolding is_space
is_space-false c lo hi = ground arith

pub no_space-label :
    (s : Text) → all_of is_name_rune s ≡ true → all_of (λ c. not (is_space c)) s ≡ true
no_space-label [] h = refl
no_space-label (c ∷ s) h = elim (Bool-cases (is_name_rune c)) [
  | inr bad ↦ absurd (cc (h, rw bad at h))
  | inl good ↦
      let b = name_rune_bounds c good in
      rw (is_space-false c b.0 b.1) (no_space-label s (rw good at h))
]

pub no_dot-label : (s : Text) → all_of is_name_rune s ≡ true → has_no_dot s ≡ true
no_dot-label [] h = refl
no_dot-label (c ∷ s) h = ground (arith, no_dot-label s)

check_name_sound : (s n : Text) → check_name s ≡ ok n → (s ≡ n) × IsLabel n
unfolding check_name
check_name_sound [] n h = ground arith
check_name_sound (c ∷ s) n h = ground (arith, check_runes-all_of (c ∷ s), byte_length-label (c ∷ s))

-- A name that is accepted is a label, and every label is accepted as it is.
check_name_iff : (s n : Text) → (check_name s ≡ ok n) ↔ ((s ≡ n) × IsLabel n)
unfolding check_name
check_name_iff s n = (
  (λ h. check_name_sound s n h),
  (λ h. ground (
    arith,
    h.0,
    check_runes-all_of s,
    byte_length-label s,
    h.1.runes,
    h.1.nonempty,
    h.1.short,
    h.1.no_hyphen_first,
    h.1.no_hyphen_last,
    h.1.no_id,
  )),
)

-- `ParseName` accepts a name exactly when it is a label once trimmed and folded, and answers that.
pub parse_name_iff :
    (raw n : Text) → (parse_name raw ≡ ok n) ↔ ((to_lower (trim_space raw) ≡ n) × IsLabel n)
unfolding parse_name
parse_name_iff raw n = check_name_iff (to_lower (trim_space raw)) n

-- A label is its own trimmed and folded form.
pub label_folded : (n : Text) → all_of is_name_rune n ≡ true → to_lower (trim_space n) ≡ n
label_folded n h = ap to_lower (trim_space_none n (no_space-label n h)) ∙ to_lower-label n h

-- The name that `ParseName` answers is accepted again, unchanged.
pub parse_name_idem : (raw n : Text) → parse_name raw ≡ ok n → parse_name n ≡ ok n
parse_name_idem raw n h =
    let (_, label) = (parse_name_iff raw n).0 h in
    (parse_name_iff n n).1 (label_folded n label.runes, label)

-- `ParseName` answers the same, name or error, for a text and for its lower case.
pub parse_name_case : (raw : Text) → parse_name (to_lower raw) ≡ parse_name raw
unfolding parse_name
parse_name_case raw = rw (trim_space-to_lower, to_lower_idem)
