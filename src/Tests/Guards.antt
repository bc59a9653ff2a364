-- ===== src/Tests/Guards.antt =====
-- Replays, rates, and the questions a router gets.
use robi_net.Base.{◌≤◌, ◌≡◌, refl, true, false, [], ◌∷◌, none, runes, lookup, equal, arith}
use robi_net.Net.{ip, v4}
use robi_net.Strings.{to_lower, lower_rune, trim_dot}
use robi_net.Guard.{new_limiter}
use robi_net.Guard.Limit.{let_through, let_through-le-limit}
use robi_net.Router.{RouterRoute, bare, match_route, rewrite, restore}
use robi_net.Router.Match.{IsLongest, match_route-IsLongest}
use robi_net.Router.Rewrite.{absolute, below, restore-rewrite}

nobody : lookup (runes "a") (new_limiter 2 60).buckets ≡ none
unfolding lookup
nobody = refl

let_through-le-limit_example :
    let_through
      (runes "a")
      ((5, runes "a") ∷ (6, runes "b") ∷ (7, runes "a") ∷ (8, runes "a") ∷ [])
      (new_limiter 2 60)
    ≤ 2
let_through-le-limit_example =
    let_through-le-limit 5 (runes "a") ((6, runes "b") ∷ (7, runes "a") ∷ (8, runes "a") ∷ [])
      (new_limiter 2 60) nobody (omega arith) (omega arith, (omega arith, (omega arith, tt)))

abbrev shop : RouterRoute
shop = record {
  virtual = runes "shop.home.robinet";
  real = runes "railway.internal";
  via = ip v4 167772414;
  ipv4 = true;
  ipv6 = false;
}

match_route-IsLongest_example :
    IsLongest
      (to_lower (trim_dot (runes "DB.shop.home.robinet.")))
      (shop ∷ [])
      (match_route (shop ∷ []) (runes "DB.shop.home.robinet."))
match_route-IsLongest_example = match_route-IsLongest (shop ∷ []) (runes "DB.shop.home.robinet.")

folded : to_lower shop.virtual ≡ shop.virtual
unfolding to_lower lower_rune
folded = refl

real_folded : to_lower shop.real ≡ shop.real
unfolding to_lower lower_rune
real_folded = refl

suffixed : bare shop ≡ false
unfolding equal
suffixed = refl

restore-rewrite_example :
    restore shop (rewrite shop (absolute (below (runes "DB") shop.virtual)))
    ≡ absolute (below (to_lower (runes "DB")) shop.virtual)
restore-rewrite_example = restore-rewrite shop folded (runes "DB") suffixed real_folded
