-- ===== src/Hub/Settings/Ready.antt =====
-- `ParsePool` of internal/hub/ipam.go and `Config` of config.go: what the hub runs on.
use native.Mathlib.Nat.{div-mul-le_self}
use robi_net.Base.{
  ℕ, refl, ◌⊎◌, ◌≤◌, ◌<◌, ◌≡◌, ◌≢◌, sym, ap, Bool, true, false, not, ◌&&◌, List, [], ◌∷◌, ◌++◌,
  Text, runes, some, equal, length, ◌==◌, if◌then◌else◌, Bool-cases, Option-cases, inl, inr, arith,
}
use robi_net.Net.{
  Family, v4, v6, ip, Prefix, width, capacity, bits, bit_len, is_prefix, span, is4, masked,
}
use robi_net.Net.Range.{masked_lem, first}
use robi_net.Result.{
  ok, err, >>=-eq-ok, Result-cases, ok_inj, no_ipv4_pool, bad_entrypoint, invalid_ports,
}
use robi_net.Strings.{trim_space}
use robi_net.Hub.Subnet.{Pool}
use robi_net.Hub.Decision.{Config}
use robi_net.Hub.Subnet.Overlay.{IsPool, ArePools}
use robi_net.Hub.Settings.{
  TextLib, cut_last, atoi, plain_size, parse_pool, parse_pools, family_pools, refuse_overlap,
  parse_port_range, binders_from, see_binders, File, Running, config_of, check_config,
}
use robi_net.Hub.Settings.Disjoint.{
  AreDisjoint, refuse_overlap-AreDisjoint, parse_port_range-bounds,
}

-- What `netip.ParsePrefix` answers: a valid prefix with an address of its family.
pub record IsParsed (p : Prefix) : Type 0 where
  pub family : Family
  pub number : ℕ
  pub at : p.addr ≡ ip family number
  pub valid : is_prefix p ≡ true
  pub inside : number < capacity family
  pub short : bits p ≤ width family

module _ (p : Prefix) (v : IsParsed p) where
  plain-IsPool : IsPool (record { prefix = p; size = plain_size p })
  plain-IsPool = record {
    family = v.family;
    number = v.number;
    at = v.at;
    valid = v.valid;
    inside = v.inside;
    covers = ground arith;
    fits = small v.family v.number v.at v.short;
  }
    where
      small : (f : Family) (n : ℕ) → p.addr ≡ ip f n → bits p ≤ width f → plain_size p ≤ width f
      small v4 n e le = ground arith
      small v6 n e le = ground arith

  sized-IsPool :
      (size : ℕ)
      → bits p ≤ size
      → size ≤ bit_len p.addr
      → IsPool (record { prefix = masked p; size = size })
  unfolding masked
  sized-IsPool size le fits = record {
    family = v.family;
    number = first p v.family v.number v.at v.valid;
    at = masked_lem p v.family v.number v.at v.valid;
    valid = ground (arith, v.valid);
    inside = omega (arith, v.inside, div-mul-le_self v.number (span v.family (bits p)));
    covers = ground (arith, v.valid);
    fits = rw (ap bit_len v.at) at fits;
  }

pub parse_pool-IsPool :
    (lib : TextLib)
    → ((s : Text) (p : Prefix) → lib.parse_prefix s ≡ some p → IsParsed p)
    → (s : Text) (pool : Pool) → parse_pool lib s ≡ ok pool
    → IsPool pool
unfolding parse_pool
parse_pool-IsPool lib parses s pool h = elim (Option-cases (cut_last b'/' (trim_space s))) [
  | inl e ↦ absurd (ground arith)
  | inr ((network, size_text), e) ↦ elim (Option-cases (lib.parse_prefix (trim_space s))) [
    | inr (p, f) ↦
        let same : record { prefix = p; size = plain_size p } ≡ pool = ground arith in
        rw (sym same) (plain-IsPool p (parses (trim_space s) p f))
    | inl f ↦ elim (Option-cases (lib.parse_prefix network)) [
      | inl g ↦ absurd (ground arith)
      | inr (p, g) ↦ elim (Option-cases (atoi size_text)) [
        | inl k ↦ absurd (ground arith)
        | inr ((minus, size), k) ↦
            let same : record { prefix = masked p; size = size } ≡ pool = ground arith in
            rw (sym same) (sized-IsPool p (parses network p g) size (ground arith) (ground arith))
      ]
    ]
  ]
]

module _ (lib : TextLib)
    (parses : (s : Text) (p : Prefix) → lib.parse_prefix s ≡ some p → IsParsed p) where
  parse_pools-ArePools :
      (ss : List Text) (ps : List Pool) → parse_pools lib ss ≡ ok ps → ArePools ps
  unfolding parse_pools
  parse_pools-ArePools [] ps h = let same : [] ≡ ps = ground arith in rw (sym same) tt
  parse_pools-ArePools (s ∷ ss) ps h = elim (Result-cases (parse_pool lib s)) [
    | inl (_, e) ↦ absurd (ground arith)
    | inr (q, e) ↦ elim (Result-cases (parse_pools lib ss)) [
      | inl (_, f) ↦ absurd (ground arith)
      | inr (qs, f) ↦
          let same : q ∷ qs ≡ ps = ground arith in
          rw (sym same) (parse_pool-IsPool lib parses s q e, parse_pools-ArePools ss qs f)
    ]
  ]

family_pools-ArePools :
    (four : Bool) (ps : List Pool) → ArePools ps → ArePools (family_pools four ps)
unfolding family_pools
family_pools-ArePools four [] h = tt
family_pools-ArePools true (p ∷ ps) (h, hs) =
    let rest = family_pools-ArePools true ps hs in
    elim (Bool-cases (is4 p.prefix.addr)) [ inl e ↦ rw e (h, rest) | inr e ↦ rw e rest ]
family_pools-ArePools false (p ∷ ps) (h, hs) =
    let rest = family_pools-ArePools false ps hs in
    elim (Bool-cases (is4 p.prefix.addr)) [ inl e ↦ rw e rest | inr e ↦ rw e (h, rest) ]

-- What a configuration promises that was read.
pub record IsReady (r : Running) : Type 0 where
  pub pools : ArePools r.config.overlays
  pub pools6 : ArePools r.config.overlays6
  pub some_pool : r.config.overlays ≢ []
  pub disjoint : AreDisjoint (r.config.overlays ++ r.config.overlays6)
  pub ports : (r.config.port_min ≤ r.config.port_max) × (r.config.port_max < 65536)

-- `New`, on a range that is not empty and a pool.
check_config_cases :
    (cfg : Config)
    → cfg.port_min ≤ cfg.port_max
    → cfg.overlays ≢ []
    → ((cfg.port_min ≢ 0) × (check_config cfg ≡ ok tt))
      ⊎ ((cfg.port_min ≡ 0) × (check_config cfg ≡ err invalid_ports))
unfolding check_config
check_config_cases cfg le some_pool = elim (Bool-cases (cfg.port_min == 0)) [
  | inl e ↦ inr (ground arith, rw (e, check_config) refl)
  | inr e ↦
      let left = some_left cfg.overlays some_pool in inl ((λ z. ground arith), ground (arith, left))
]
  where
    some_left : (ps : List Pool) → ps ≢ [] → length ps ≢ 0
    some_left [] h e = h refl
    some_left (p ∷ ps) h e = omega arith

-- What is read from the file, where it is read at all: the size of every pool fits in it, there is
-- an IPv4 pool, no address lies in two pools, and the range of ports is not empty and fits in sixteen
-- bits; and `New` takes the configuration, unless the range of ports begins at 0, which it refuses. A
-- prefix that the library reads is valid and no longer than its address.
pub config_of-IsReady :
    (lib : TextLib)
    → ((s : Text) (p : Prefix) → lib.parse_prefix s ≡ some p → IsParsed p)
    → (f : File) (r : Running) → config_of lib f ≡ ok r
    → IsReady r
      × (((r.config.port_min ≢ 0) × (check_config r.config ≡ ok tt))
          ⊎ ((r.config.port_min ≡ 0) × (check_config r.config ≡ err invalid_ports)))
unfolding config_of
config_of-IsReady lib parses f r h =
    let (all, read, h1) = >>=-eq-ok (parse_pools lib f.overlays) _ h in
    let pools = family_pools true all in
    let pools6 = family_pools false all in
    let (_, apart, h2) = >>=-eq-ok (refuse_overlap (pools ++ pools6)) _ h1 in
    let (_, four, h3) = >>=-eq-ok (if length pools == 0 then err no_ipv4_pool else ok tt) _ h2 in
    let (_, _, h4) =
      >>=-eq-ok
        (if not (equal f.entrypoint (runes "http")) && not (equal f.entrypoint (runes "https"))
          then err bad_entrypoint
          else ok tt)
        _ h3 in
    let (range, ports, h5) = >>=-eq-ok (parse_port_range f.ports) _ h4 in
    let (binders, _, h6) = >>=-eq-ok (binders_from lib [] f.binder) _ h5 in
    let (_, _, h7) = >>=-eq-ok (see_binders lib binders []) _ h6 in
    let valid = parse_pools-ArePools lib parses f.overlays all read in
    let made = ok_inj h7 in
    let nonempty_range = parse_port_range-bounds f.ports range.0 range.1 ports in
    rw (sym made) (
      record {
        pools = family_pools-ArePools true all valid;
        pools6 = family_pools-ArePools false all valid;
        some_pool = λ none_left. nonempty pools four none_left;
        disjoint = refuse_overlap-AreDisjoint (pools ++ pools6) apart;
        ports = nonempty_range;
      },
      check_config_cases _ nonempty_range.0 (λ none_left. nonempty pools four none_left),
    )
  where
    nonempty :
        (ps : List Pool)
        → {u : Unit {0}} → (if length ps == 0 then err no_ipv4_pool else ok tt) ≡ ok u
        → ps ≢ []
    nonempty [] h e = cc
    nonempty (p ∷ ps) h e = cc
