-- ===== src/Router/Rewrite.antt =====
-- `rewrite` and `restore` of internal/tenant/dnsrouter.go, one after the other.
use robi_net.Base.{
  ◌≡◌, refl, sym, ap, ◌∙◌, true, false, [], ◌∷◌, ◌++◌, Text, length-append, equal, is_empty, any_of,
  ◌==◌, arith,
}
use robi_net.Strings.{to_lower, trim_dot, lower_rune}
use robi_net.Strings.Trim.{to_lower_idem}
use robi_net.Router.{RouterRoute, bare, rewrite, restore}
use robi_net.Router.Suffix.{
  equal-longer, has_suffix-append, trim_suffix-append, to_lower-append, append_assoc,
}

-- A name with its final dot.
abbrev pub absolute : Text → Text
absolute s = s ++ (b'.' ∷ [])

-- A name below a name space.
abbrev pub below : Text → Text → Text
below asked space = asked ++ (b'.' ∷ space)

trim_dot-absolute : (s : Text) → trim_dot (absolute s) ≡ s
unfolding trim_dot
trim_dot-absolute [] = refl
trim_dot-absolute (c ∷ []) = ground arith
trim_dot-absolute (c ∷ d ∷ s) = ground (arith, trim_dot-absolute (d ∷ s))

to_lower-absolute : (s : Text) → to_lower (absolute s) ≡ absolute (to_lower s)
unfolding to_lower lower_rune
to_lower-absolute s = to_lower-append s (b'.' ∷ [])

to_lower-below : (a s : Text) → to_lower (below a s) ≡ below (to_lower a) (to_lower s)
unfolding to_lower lower_rune
to_lower-below a s = to_lower-append a (b'.' ∷ s)

-- What `rewrite` and `restore` make of a name first: its dot and its case are gone.
cleaned :
    (a s : Text)
    → to_lower s ≡ s
    → trim_dot (to_lower (absolute (below a s))) ≡ below (to_lower a) s
cleaned a s h =
    rw
      (
        to_lower-absolute (below a s),
        trim_dot-absolute (to_lower (below a s)),
        to_lower-below a s,
        h,
      )
      refl

equal-below : (a s : Text) → equal (below a s) s ≡ false
equal-below a s = equal-longer (below a s) s (omega (arith, length-append a (b'.' ∷ s)))

absolute-below : (a s : Text) → absolute (below a s) ≡ a ++ (b'.' ∷ (s ++ (b'.' ∷ [])))
absolute-below a s = append_assoc a (b'.' ∷ s) (b'.' ∷ [])

lower_ne : (s : Text) → is_empty s ≡ false → is_empty (to_lower s) ≡ false
unfolding to_lower
lower_ne [] h = h
lower_ne (c ∷ s) h = refl

module _ (r : RouterRoute) (space : to_lower r.virtual ≡ r.virtual) where
  -- A name below the name space, in whatever case, goes out below the connector's own domain.
  rewrite-below :
      (asked : Text)
      → bare r ≡ false
      → rewrite r (absolute (below asked r.virtual)) ≡ absolute (below (to_lower asked) r.real)
  unfolding rewrite
  rewrite-below asked suffixed =
      rw
        (
          cleaned asked r.virtual space,
          rewrite,
          equal-below (to_lower asked) r.virtual,
          suffixed,
          trim_suffix-append (to_lower asked) b'.' r.virtual,
        )
        (sym (absolute-below (to_lower asked) r.real))

  restore-below :
      (asked : Text)
      → bare r ≡ false
      → to_lower r.real ≡ r.real
      → restore r (absolute (below asked r.real)) ≡ absolute (below (to_lower asked) r.virtual)
  unfolding restore
  restore-below asked suffixed own =
      rw
        (
          cleaned asked r.real own,
          restore,
          suffixed,
          equal-below (to_lower asked) r.real,
          has_suffix-append (to_lower asked) (b'.' ∷ r.real),
          trim_suffix-append (to_lower asked) b'.' r.real,
        )
        (sym (absolute-below (to_lower asked) r.virtual))

  -- When both name spaces are in lower case and the connector's is not the root, a question below the
  -- route's name space, in whatever case, that is rewritten for the connector and restored in the
  -- answer is the same name again, in lower case.
  pub restore-rewrite :
      (asked : Text)
      → bare r ≡ false
      → to_lower r.real ≡ r.real
      → restore r (rewrite r (absolute (below asked r.virtual)))
        ≡ absolute (below (to_lower asked) r.virtual)
  restore-rewrite asked suffixed own =
      ap (restore r) (rewrite-below asked suffixed)
      ∙ restore-below (to_lower asked) suffixed own
      ∙ ap (λ (a : Text). absolute (below a r.virtual)) (to_lower_idem asked)

  -- When the name space is in lower case and the connector's is the root, a question for one label
  -- below the route's name space, in whatever case, comes back as the same name in lower case.
  pub restore-rewrite-bare :
      (label : Text)
      → bare r ≡ true
      → is_empty label ≡ false
      → any_of (λ c. c == b'.') (to_lower label) ≡ false
      → restore r (rewrite r (absolute (below label r.virtual)))
        ≡ absolute (below (to_lower label) r.virtual)
  unfolding rewrite restore
  restore-rewrite-bare label root some_label one =
      rw
        (
          cleaned label r.virtual space,
          rewrite,
          equal-below (to_lower label) r.virtual,
          root,
          trim_suffix-append (to_lower label) b'.' r.virtual,
          restore,
          to_lower-absolute (to_lower label),
          trim_dot-absolute (to_lower (to_lower label)),
          to_lower_idem label,
          one,
          lower_ne label some_label,
        )
        (sym (absolute-below (to_lower label) r.virtual))
