-- ===== src/Enroll.antt =====
-- internal/enroll/protocol.go: what a connector asks for, its authentication code, and the checks
-- that a request passes before it is stored.
pub mod Domain
pub mod Mac
use robi_net.Base.{
  ℕ, zero, suc, ◌+◌, ◌-◌, ◌*◌, ◌/◌, ◌%◌, Bool, true, false, not, ◌&&◌, ◌||◌, List, [], ◌∷◌, ◌++◌,
  map, Option, none, some, Text, runes, Dict, lookup, equal, is_empty, length, leb, ltb, ◌==◌,
  if◌then◌else◌,
}
use robi_net.Net.{Prefix, same_addr, is_prefix, masked}
use robi_net.Result.{
  Result, ok, err, ◌>>=◌, key_missing, too_many_routes, invalid_route, route_not_masked,
  too_many_hints, domain_empty, domain_too_long, label_empty, label_too_long, label_hyphen,
  label_character,
}
use robi_net.Strings.{
  between, to_lower, is_space, trim_space, trim_dot, byte_length, split_dots, starts_in, ends_in,
}
use robi_net.Hub.Types.{Request}

-- What the program takes from libraries that compute digests and print prefixes.
pub record Platform : Type 0 where
  pub sha256 : Text → List ℕ
  pub hmac_sha256 : Text → Text → List ℕ
  pub show_prefix : Prefix → Text

-- `<=` on strings.
unfoldable pub text_le : Text → Text → Bool
text_le [] b = true
text_le (x ∷ a) [] = false
text_le (x ∷ a) (y ∷ b) = let rest = text_le a b in if x == y then rest else ltb x y

unfoldable pub insert_text : Text → List Text → List Text
insert_text s [] = s ∷ []
insert_text s (t ∷ ts) = if text_le s t then s ∷ t ∷ ts else t ∷ insert_text s ts

-- `slices.Sort` and `sort.Strings`
unfoldable pub sort_texts : List Text → List Text
unfolding insert_text text_le
sort_texts [] = []
sort_texts (s ∷ ts) = insert_text s (sort_texts ts)

-- `strings.Fields`: `word` is the field that is being read, `[]` between fields.
unfoldable pub fields_from : Text → Text → List Text
unfolding is_space
fields_from word [] = if is_empty word then [] else word ∷ []
fields_from word (c ∷ s) =
    let behind = fields_from [] s in
    let further = fields_from (word ++ c ∷ []) s in
    if is_space c then (if is_empty word then behind else word ∷ behind) else further

unfoldable pub join_with : ℕ → List Text → Text
join_with sep [] = []
join_with sep (p ∷ []) = p
join_with sep (p ∷ q ∷ ps) = p ++ (sep ∷ join_with sep (q ∷ ps))

-- `normalizePEM`
unfoldable pub normalize_pem : Text → Text
unfolding fields_from join_with
normalize_pem s = join_with b' ' (fields_from [] s)

line : Text → Text → Text
line key val = key ++ (val ++ b'\n' ∷ [])

or_nothing : Option Text → Text
or_nothing none = []
or_nothing (some t) = t

keys_of : Dict Text → List Text
keys_of [] = []
keys_of ((k, v) ∷ m) = k ∷ keys_of m

hint_lines : List Text → Dict Text → Text
unfolding line or_nothing lookup
hint_lines [] hints = []
hint_lines (k ∷ ks) hints =
    line (runes "hint." ++ k ++ runes "=") (or_nothing (lookup k hints)) ++ hint_lines ks hints

-- `Request.Canonical`
unfoldable pub canonical : Platform → Request → Text
unfolding sort_texts normalize_pem join_with line hint_lines keys_of
canonical pl r =
    line (runes "robinet/v1/enroll") []
    ++ line (runes "public_key=") (normalize_pem r.public_key)
    ++ line (runes "name=") r.name
    ++ line (runes "routes=") (join_with b',' (sort_texts (map pl.show_prefix r.routes)))
    ++ line (runes "domain=") r.domain
    ++ hint_lines (sort_texts (keys_of r.hints)) r.hints

unfoldable pub hex_digit : ℕ → ℕ
hex_digit n = if ltb n 10 then n + b'0' else n + 87

-- `hex.EncodeToString`
unfoldable pub hex_encode : List ℕ → Text
unfolding hex_digit
hex_encode [] = []
hex_encode (b ∷ bs) = hex_digit (b / 16) ∷ hex_digit (b % 16) ∷ hex_encode bs

unfoldable pub hex_value : ℕ → Option ℕ
hex_value c =
    if between b'0' b'9' c
    then some (c - b'0')
    else if between b'a' b'f' c
    then some (c - 87)
    else if between b'A' b'F' c
    then some (c - 55)
    else none

-- Two digits in front of what the rest decodes to.
unfoldable pub with_byte : Option ℕ → Option ℕ → Option (List ℕ) → Option (List ℕ)
with_byte (some h) (some l) (some bs) = some ((16 * h + l) ∷ bs)
with_byte _ _ _ = none

-- `hex.DecodeString`
unfoldable pub hex_decode : Text → Option (List ℕ)
unfolding hex_value with_byte
hex_decode [] = some []
hex_decode (c ∷ []) = none
hex_decode (c ∷ d ∷ s) = with_byte (hex_value c) (hex_value d) (hex_decode s)

-- `Request.MAC`
unfoldable pub mac : Platform → Request → Text → Text
unfolding hex_encode
mac pl r token = hex_encode (pl.hmac_sha256 token (canonical pl r))

-- `hmac.Equal` of two decoded codes, where both decode.
unfoldable pub same_code : Option (List ℕ) → Option (List ℕ) → Bool
same_code (some want) (some got) = equal want got
same_code _ _ = false

-- `Request.VerifyMAC`
unfoldable pub verify_mac : Platform → Request → Text → Text → Bool
unfolding same_code hex_decode mac
verify_mac pl r token code = same_code (hex_decode (mac pl r token)) (hex_decode code)

-- `RootDomain`
abbrev pub root_domain : Text
root_domain = b'.' ∷ []

abbrev pub is_label_rune : ℕ → Bool
is_label_rune c = between b'a' b'z' c || between b'0' b'9' c || c == b'-'

check_label_runes : Text → Result (Unit {0})
check_label_runes [] = ok tt
check_label_runes (c ∷ cs) = if is_label_rune c then check_label_runes cs else err label_character

-- One round of the loop over the labels of a domain.
unfoldable pub check_label : Text → Result (Unit {0})
unfolding check_label_runes
check_label label =
    if is_empty label
    then err label_empty
    else if ltb 63 (byte_length label)
    then err label_too_long
    else if starts_in b'-' label || ends_in b'-' label
    then err label_hyphen
    else check_label_runes label

unfoldable pub check_domain_labels : List Text → Result (Unit {0})
check_domain_labels [] = ok tt
check_domain_labels (l ∷ ls) = let rest = check_domain_labels ls in check_label l >>= λ _. rest

-- `ParseDomain`, from the name without its trailing dot on.
unfoldable pub check_domain : Text → Result Text
check_domain name =
    if is_empty name
    then err domain_empty
    else if ltb 253 (byte_length name)
    then err domain_too_long
    else (check_domain_labels (split_dots name) >>= λ _. ok name)

unfoldable pub parse_domain : Text → Result Text
unfolding check_domain
parse_domain raw =
    let name = to_lower (trim_space raw) in
    if equal name root_domain then ok root_domain else check_domain (trim_dot name)

unfoldable pub check_routes : List Prefix → Result (Unit {0})
check_routes [] = ok tt
check_routes (p ∷ ps) =
    let rest = check_routes ps in
    if not (is_prefix p)
    then err invalid_route
    else if not (same_addr p.addr (masked p).addr)
    then err route_not_masked
    else rest

-- `Request.Validate`, with the request as it leaves it.
unfoldable pub validate : Request → Result Request
unfolding check_routes
validate r =
    if is_empty (trim_space r.public_key)
    then err key_missing
    else if ltb 64 (length r.routes)
    then err too_many_routes
    else (check_routes r.routes >>= λ _.
        (if is_empty r.domain
          then ok r
          else (parse_domain r.domain >>= λ d. ok (record r { domain = d })))
        >>= λ r'. if ltb 64 (length r'.hints) then err too_many_hints else ok r')
