-- ===== src/Tests/Names.antt =====
-- Names, domains and codes.
use robi_net.Base.{◌≡◌, ◌≢◌, ◌↔◌, ◌⊎◌, ◌≤◌, refl, true, some, Text, runes, length, arith}
use robi_net.Result.{ok}
use robi_net.Strings.{to_lower, trim_space, trim_dot, byte_length, starts_in, ends_in, split_dots}
use robi_net.Hub.Name.{parse_name, is_hex, parse_member_name}
use robi_net.Hub.Name.Label.{IsLabel, parse_name_iff}
use robi_net.Hub.Name.Member.{AreLabels, parse_member_name_iff, parse_member_name_keeps_space}
use robi_net.Enroll.{canonical, verify_mac, hex_decode, parse_domain, root_domain}
use robi_net.Enroll.Mac.{are_bytes, verify_mac_iff}
use robi_net.Enroll.Domain.{IsDomain, parse_domain_iff}
use robi_net.Tests.{toy, request}

abbrev raw : Text
raw = runes " Build-3 "

abbrev name : Text
name = runes "build-3"

parse_name_iff_example :
    (parse_name raw ≡ ok name) ↔ ((to_lower (trim_space raw) ≡ name) × IsLabel name)
parse_name_iff_example = parse_name_iff raw name

parse_member_name_iff_example : (parse_member_name (runes "DB.shop.") ≡ ok (runes "db.shop")) ↔ (
    (trim_dot (to_lower (trim_space (runes "DB.shop."))) ≡ runes "db.shop")
    × (1 ≤ length (runes "db.shop"))
    × (byte_length (runes "db.shop") ≤ 253)
    × AreLabels (split_dots (runes "db.shop")))
parse_member_name_iff_example = parse_member_name_iff (runes "DB.shop.") (runes "db.shop")

db-IsLabel : IsLabel (runes "db")
unfolding starts_in ends_in is_hex
db-IsLabel = record {
  runes = refl;
  nonempty = omega arith;
  short = omega arith;
  no_hyphen_first = refl;
  no_hyphen_last = refl;
  no_id = λ h. ground arith;
}

parse_member_name_keeps_space_example : parse_member_name (runes "db. db") ≡ ok (runes "db. db")
parse_member_name_keeps_space_example =
    parse_member_name_keeps_space (runes "db") (runes "db") db-IsLabel db-IsLabel

digest : are_bytes (toy.hmac_sha256 (runes "t") (canonical toy request)) ≡ true
digest = ground arith

verify_mac_iff_example :
    (verify_mac toy request (runes "t") (runes "0102") ≡ true)
    ↔ (hex_decode (runes "0102") ≡ some (toy.hmac_sha256 (runes "t") (canonical toy request)))
verify_mac_iff_example = verify_mac_iff toy request (runes "t") (runes "0102") digest

parse_domain_iff_example :
    (parse_domain (runes " Shop.Internal. ") ≡ ok (runes "shop.internal")) ↔ (
      ((to_lower (trim_space (runes " Shop.Internal. ")) ≡ root_domain)
        × (runes "shop.internal" ≡ root_domain))
      ⊎ ((to_lower (trim_space (runes " Shop.Internal. ")) ≢ root_domain)
          × (trim_dot (to_lower (trim_space (runes " Shop.Internal. "))) ≡ runes "shop.internal")
          × IsDomain (runes "shop.internal")))
parse_domain_iff_example = parse_domain_iff (runes " Shop.Internal. ") (runes "shop.internal")
