-- ===== src/Hub/Name/Member.antt =====
-- What `ParseMemberName` accepts.
use mathlib.Core.List.{map-append}
use robi_net.Base.{
  ◌+◌, ◌≤◌, ◌≡◌, ◌↔◌, refl, ap, ◌∙◌, false, List, [], ◌∷◌, ◌++◌, Text, is_empty, length,
  length-append, if◌then◌else◌, arith,
}
use robi_net.Result.{Result, ok, err}
use robi_net.Strings.{
  lower_rune, to_lower, is_space, trim_left, trim_right, trim_space, trim_dot, byte_length,
  split_dots,
}
use robi_net.Strings.Trim.{
  trim_right_none, trim_left_head, trim_right-append, trim_dot-append, trim_dot_none,
}
use robi_net.Strings.Split.{split_dots-label, split_dots-append}
use robi_net.Hub.Name.{parse_name, check_labels, check_member_name, parse_member_name}
use robi_net.Hub.Name.Label.{
  IsLabel, parse_name_iff, label_folded, to_lower-label, no_space-label, no_dot-label,
  byte_length-label,
}

-- Every label is one once it is trimmed and folded on its own.
abbrev pub AreLabels : List Text → Type 0
AreLabels [] = Unit
AreLabels (l ∷ ls) = IsLabel (to_lower (trim_space l)) × AreLabels ls

check_labels_cons :
    (l : Text) (ls : List Text) (r : Result Text)
    → parse_name l ≡ r
    → (check_labels (l ∷ ls) ≡ ok tt)
      ↔ (IsLabel (to_lower (trim_space l)) × (check_labels ls ≡ ok tt))
unfolding check_labels
check_labels_cons l ls (ok m) e =
    let (same, label) = (parse_name_iff l m).0 e in
    ((λ h. (rw same label, rw (e, check_labels) at h)), (λ h. rw (e, check_labels) (h.1)))
check_labels_cons l ls (err x) e = (
  (λ h. absurd (cc (rw (e, check_labels) at h))),
  (λ h. absurd (cc (e, (parse_name_iff l _).1 (refl, h.0)))),
)

check_labels_iff : (ls : List Text) → (check_labels ls ≡ ok tt) ↔ AreLabels ls
unfolding check_labels
check_labels_iff [] = ((λ h. tt), (λ h. refl))
check_labels_iff (l ∷ ls) =
    let one = check_labels_cons l ls (parse_name l) refl in
    let more = check_labels_iff ls in
    ((λ h. ((one.0 h).0, more.0 (one.0 h).1)), (λ h. one.1 (h.0, more.1 h.1)))

Unit-eta : (u : Unit {0}) → u ≡ tt
Unit-eta u = refl

check_member_name_iff :
    (s n : Text)
    → (check_member_name s ≡ ok n)
      ↔ ((s ≡ n) × (1 ≤ length n) × (byte_length n ≤ 253) × (check_labels (split_dots n) ≡ ok tt))
unfolding check_member_name
check_member_name_iff [] n = ground arith
check_member_name_iff (c ∷ s) n = ground arith

-- `ParseMemberName` accepts a name exactly when, trimmed, folded and without one dot behind, it is
-- neither empty nor over 253 bytes and each part between dots is a label once trimmed by itself.
pub parse_member_name_iff :
    (raw n : Text)
    → (parse_member_name raw ≡ ok n) ↔ (
        (trim_dot (to_lower (trim_space raw)) ≡ n)
        × (1 ≤ length n)
        × (byte_length n ≤ 253)
        × AreLabels (split_dots n))
unfolding parse_member_name
parse_member_name_iff raw n =
    let whole = check_member_name_iff (trim_dot (to_lower (trim_space raw))) n in
    let parts = check_labels_iff (split_dots n) in
    (
      λ h.
          let (same, some_rune, short, all_ok) = whole.0 h in
          (same, some_rune, short, parts.0 all_ok),
      λ (same, some_rune, short, labels). whole.1 (same, some_rune, short, parts.1 labels),
    )

to_lower-append : (s t : Text) → to_lower (s ++ t) ≡ to_lower s ++ to_lower t
unfolding to_lower
to_lower-append s t = map-append lower_rune s t

to_lower_two : (b : Text) → to_lower (b'.' ∷ b' ' ∷ b) ≡ b'.' ∷ b' ' ∷ to_lower b
unfolding to_lower lower_rune
to_lower_two b = refl

trim_space-cons : (b : Text) → trim_space (b' ' ∷ b) ≡ trim_space b
unfolding trim_space
trim_space-cons b = go (trim_right is_space b)
  where
    go :
        (r : Text) → trim_left is_space (if is_empty r then [] else b' ' ∷ r) ≡ trim_left is_space r
    go [] = refl
    go (c ∷ r) = refl

byte_length-append : (s t : Text) → byte_length (s ++ t) ≡ byte_length s + byte_length t
unfolding byte_length
byte_length-append [] t = omega arith
byte_length-append (c ∷ s) t = omega (arith, byte_length-append s t)

IsLabel-some : (a : Text) → IsLabel a → is_empty a ≡ false
IsLabel-some [] l = absurd (omega (arith, l.nonempty))
IsLabel-some (c ∷ a) l = refl

module _ (a b : Text) (la : IsLabel a) (lb : IsLabel b) where
  abbrev spaced : Text
  spaced = a ++ (b'.' ∷ b' ' ∷ b)

  b_some : is_empty b ≡ false
  b_some = IsLabel-some b lb

  spaced_trim : trim_space spaced ≡ spaced
  unfolding trim_space
  spaced_trim =
      let tail =
        trim_right-append (b'.' ∷ b' ' ∷ []) b b_some
          (trim_right_none b (no_space-label b lb.runes)) in
      let right = trim_right-append a (b'.' ∷ b' ' ∷ b) refl tail in
      ap (trim_left is_space) right
      ∙ trim_left_head a _ (IsLabel-some a la) (no_space-label a la.runes)

  spaced_fold : to_lower spaced ≡ spaced
  spaced_fold =
      to_lower-append a (b'.' ∷ b' ' ∷ b)
      ∙ rw (to_lower-label a la.runes, to_lower_two b, to_lower-label b lb.runes)

  spaced_dot : trim_dot spaced ≡ spaced
  spaced_dot =
      trim_dot-append a _ refl
        (trim_dot-append (b'.' ∷ b' ' ∷ []) b b_some (trim_dot_none b (no_dot-label b lb.runes)))

  spaced_labels : AreLabels (split_dots spaced)
  spaced_labels =
      rw
        (
          split_dots-append a (b' ' ∷ b) (no_dot-label a la.runes),
          split_dots-label (b' ' ∷ b) (no_dot-label b lb.runes),
        )
        (rw (label_folded a la.runes) la, (rw (trim_space-cons b, label_folded b lb.runes) lb, tt))

  spaced_short : (1 ≤ length spaced) × (byte_length spaced ≤ 253)
  unfolding byte_length
  spaced_short =
      let whole = length-append a (b'.' ∷ b' ' ∷ b) in
      let sum = byte_length-append a (b'.' ∷ b' ' ∷ b) in
      (
        omega arith,
        omega
            (arith, byte_length-label a la.runes, byte_length-label b lb.runes, la.short, lb.short),
      )

-- Two labels with a dot and a space between them are accepted as a member's name, and the name that
-- is answered still holds the space.
pub parse_member_name_keeps_space :
    (a b : Text)
    → IsLabel a
    → IsLabel b
    → parse_member_name (a ++ (b'.' ∷ b' ' ∷ b)) ≡ ok (a ++ (b'.' ∷ b' ' ∷ b))
parse_member_name_keeps_space a b la lb =
    let folded = ap trim_dot (ap to_lower (spaced_trim a b la lb) ∙ spaced_fold a b la lb) in
    (parse_member_name_iff _ _).1 (
      folded ∙ spaced_dot a b la lb,
      (spaced_short a b la lb).0,
      (spaced_short a b la lb).1,
      spaced_labels a b la lb,
    )
