-- ===== src/Enroll/Domain.antt =====
-- What `ParseDomain` accepts.
use robi_net.Base.{
  ◌≤◌, ◌≡◌, ◌≢◌, ◌↔◌, ◌⊎◌, refl, true, false, List, [], ◌∷◌, Text, equal, equal_iff, is_empty,
  all_of, if◌then◌else◌, Bool-cases, inl, inr, arith,
}
use robi_net.Result.{Result, ok, err, ◌>>=◌}
use robi_net.Strings.{to_lower, trim_space, trim_dot, byte_length, split_dots, starts_in, ends_in}
use robi_net.Enroll.{
  root_domain, is_label_rune, check_label_runes, check_label, check_domain_labels, check_domain,
  parse_domain,
}

-- A label as DNS allows it.
pub record IsDnsLabel (label : Text) : Type 0 where
  pub nonempty : is_empty label ≡ false
  pub short : byte_length label ≤ 63
  pub no_hyphen_first : starts_in b'-' label ≡ false
  pub no_hyphen_last : ends_in b'-' label ≡ false
  pub runes : all_of is_label_rune label ≡ true

abbrev pub AreDnsLabels : List Text → Type 0
AreDnsLabels [] = Unit
AreDnsLabels (l ∷ ls) = IsDnsLabel l × AreDnsLabels ls

check_label_runes_iff : (s : Text) → (check_label_runes s ≡ ok tt) ↔ (all_of is_label_rune s ≡ true)
unfolding check_label_runes
check_label_runes_iff [] = ground arith
check_label_runes_iff (c ∷ s) = ground (arith, check_label_runes_iff s)

check_label_iff : (l : Text) → (check_label l ≡ ok tt) ↔ IsDnsLabel l
unfolding check_label
check_label_iff l = ground (arith, check_label_runes_iff l)

check_domain_labels_iff : (ls : List Text) → (check_domain_labels ls ≡ ok tt) ↔ AreDnsLabels ls
unfolding check_domain_labels
check_domain_labels_iff [] = ((λ h. tt), (λ h. refl))
check_domain_labels_iff (l ∷ ls) =
    let one = check_label_iff l in
    let more = check_domain_labels_iff ls in
    (
      λ h.
          let both = bind_parts (check_label l) (check_domain_labels ls) h in
          (one.0 both.0, more.0 both.1),
      λ (a, b). rw (one.1 a) (more.1 b),
    )
  where
    bind_parts : (m k : Result (Unit {0})) → (m >>= λ _. k) ≡ ok tt → (m ≡ ok tt) × (k ≡ ok tt)
    bind_parts (ok _) k h = (refl, h)
    bind_parts (err e) k h = cc

-- The form that a domain is stored in.
pub record IsDomain (name : Text) : Type 0 where
  pub nonempty : is_empty name ≡ false
  pub short : byte_length name ≤ 253
  pub labels : AreDnsLabels (split_dots name)

check_domain_core :
    (s d : Text)
    → (check_domain s ≡ ok d) ↔ (
        (s ≡ d)
        × (is_empty d ≡ false)
        × (byte_length d ≤ 253)
        × (check_domain_labels (split_dots d) ≡ ok tt))
unfolding check_domain
check_domain_core [] d = ground arith
check_domain_core (c ∷ s) d = ground arith

check_domain_iff : (s d : Text) → (check_domain s ≡ ok d) ↔ ((s ≡ d) × IsDomain d)
check_domain_iff s d =
    let core = check_domain_core s d in
    let parts = check_domain_labels_iff (split_dots d) in
    (
      λ h.
          let (same, some_rune, short, all_ok) = core.0 h in
          (same, record { nonempty = some_rune; short = short; labels = parts.0 all_ok }),
      λ (same, v). core.1 (same, v.nonempty, v.short, parts.1 v.labels),
    )

-- `ParseDomain` answers the root for the root, and else the trimmed and folded name without one
-- dot behind, exactly when that is a domain as DNS allows it.
pub parse_domain_iff :
    (raw d : Text)
    → (parse_domain raw ≡ ok d) ↔ (
        ((to_lower (trim_space raw) ≡ root_domain) × (d ≡ root_domain))
        ⊎ ((to_lower (trim_space raw) ≢ root_domain)
            × (trim_dot (to_lower (trim_space raw)) ≡ d)
            × IsDomain d))
unfolding parse_domain
parse_domain_iff raw d = go (to_lower (trim_space raw))
  where
    go :
        (s : Text)
        → ((if equal s root_domain then ok root_domain else check_domain (trim_dot s)) ≡ ok d) ↔ (
            ((s ≡ root_domain) × (d ≡ root_domain))
            ⊎ ((s ≢ root_domain) × (trim_dot s ≡ d) × IsDomain d))
    go s = elim (Bool-cases (equal s root_domain)) [
      | inl e ↦
          let root = (equal_iff s root_domain).0 e in
          rw e (
            (λ h. inl (root, cc)),
            λ h. elim h [ inl (_, g) ↦ cc | inr (ne, _, _) ↦ absurd (ne root) ],
          )
      | inr e ↦
          let other = check_domain_iff (trim_dot s) d in
          rw e (
            (λ h. inr ((λ r. cc (e, (equal_iff s root_domain).1 r)), (other.0 h).0, (other.0 h).1)),
            λ h. elim h [
              | inl (r, _) ↦ absurd (cc (e, (equal_iff s root_domain).1 r))
              | inr (_, same, v) ↦ other.1 (same, v)
            ],
          )
    ]
