-- ===== src/Hub/CertName.antt =====
-- internal/hub/certname.go: the names that certificates are issued to.
use robi_net.Base.{◌≡◌, ◌≢◌, refl, sym, ◌∙◌, true, ◌∷◌, ◌++◌, Text, runes}
use robi_net.Strings.Split.{has_no_dot, has_no_dot-append, last_dot_unique}
use robi_net.Router.Suffix.{append_assoc}
use robi_net.Hub.Types.{Kind, connector, tenant, owner}

-- `CertSuffix`
abbrev pub cert_suffix : Text
cert_suffix = runes "instance"

abbrev hub_label : Text
hub_label = runes "hub"

-- `certKind`
abbrev pub cert_kind : Kind → Text
cert_kind connector = runes "connector"
cert_kind _ = runes "tenant"

-- `LighthouseCertName`
unfoldable pub lighthouse_cert_name : Text → Text
lighthouse_cert_name inst = hub_label ++ (b'.' ∷ (inst ++ (b'.' ∷ cert_suffix)))

-- `MemberCertName`
unfoldable pub member_cert_name : Kind → Text → Text → Text
member_cert_name kind name inst =
    name ++ (b'.' ∷ (cert_kind kind ++ (b'.' ∷ (inst ++ (b'.' ∷ cert_suffix)))))

cert_kind_no_dot : (k : Kind) → has_no_dot (cert_kind k) ≡ true
cert_kind_no_dot connector = refl
cert_kind_no_dot tenant = refl
cert_kind_no_dot owner = refl

-- From the last dot on.
member_split :
    (kind : Kind) (name inst : Text)
    → member_cert_name kind name inst
      ≡ ((name ++ (b'.' ∷ cert_kind kind)) ++ (b'.' ∷ inst)) ++ (b'.' ∷ cert_suffix)
unfolding member_cert_name
member_split kind name inst = sym (
    append_assoc (name ++ (b'.' ∷ cert_kind kind)) (b'.' ∷ inst) (b'.' ∷ cert_suffix)
    ∙ append_assoc name (b'.' ∷ cert_kind kind) (b'.' ∷ (inst ++ (b'.' ∷ cert_suffix))))

lighthouse_split :
    (inst : Text) → lighthouse_cert_name inst ≡ (hub_label ++ (b'.' ∷ inst)) ++ (b'.' ∷ cert_suffix)
unfolding lighthouse_cert_name
lighthouse_split inst = sym (append_assoc hub_label (b'.' ∷ inst) (b'.' ∷ cert_suffix))

-- When the instances' names hold no dot, two members' certificates have one name only if the
-- members' names, the labels of their kinds and their instances' names are the same.
pub member_cert_name_inj :
    (kind kind' : Kind) (name name' inst inst' : Text)
    → has_no_dot inst ≡ true
    → has_no_dot inst' ≡ true
    → member_cert_name kind name inst ≡ member_cert_name kind' name' inst'
    → (name ≡ name') × (cert_kind kind ≡ cert_kind kind') × (inst ≡ inst')
member_cert_name_inj kind kind' name name' inst inst' h h' e =
    let front =
      (last_dot_unique _ _ cert_suffix cert_suffix refl refl
        (sym (member_split kind name inst) ∙ e ∙ member_split kind' name' inst')).0 in
    let (names, insts) = last_dot_unique _ _ inst inst' h h' front in
    let (same, kinds) =
      last_dot_unique name name' _ _ (cert_kind_no_dot kind) (cert_kind_no_dot kind') names in
    (same, kinds, insts)

-- When the instances' names hold no dot, no member's certificate has the name of a lighthouse's.
pub lighthouse_cert_name_apart :
    (kind : Kind) (name inst inst' : Text)
    → has_no_dot inst ≡ true
    → has_no_dot inst' ≡ true
    → member_cert_name kind name inst ≢ lighthouse_cert_name inst'
lighthouse_cert_name_apart kind name inst inst' h h' e =
    let front =
      (last_dot_unique _ _ cert_suffix cert_suffix refl refl
        (sym (member_split kind name inst) ∙ e ∙ lighthouse_split inst')).0 in
    let (names, _) = last_dot_unique _ _ inst inst' h h' front in
    no_label name (cert_kind kind) hub_label refl names
  where
    no_label : (a b c : Text) → has_no_dot c ≡ true → a ++ (b'.' ∷ b) ≡ c → ⊥
    no_label a b c d g = cc (d, rw g at (has_no_dot-append a b))
