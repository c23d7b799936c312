-- ===== src/Policy/Tests.antt =====
-- Policies at concrete rules: `eth*`, `!eth1`.
use bmon.Prelude.{◌≡◌, refl, true, false, none, some, List, [], ◌∷◌, ◌↔◌, ◌⊎◌, arith}
use bmon.Prelude.Bytes.{Bytes, codes, tolower}
use bmon.Policy.{Policies, match_mask, element_allowed, element_parse_policy}
use bmon.Policy.Glob.{Matches, OnlyLastStar, no_star, last_star, literal, match_mask_star_too_short}
use bmon.Policy.Allowed.{Covers, element_allowed_iff}
use bmon.Policy.Parse.{Rule, allow, deny, element_parse_policy-print_rules}

abbrev eth_any : Bytes
eth_any = codes "eth*"

abbrev eth1 : Bytes
eth1 = codes "ETH1"

abbrev no_policies : Policies
no_policies = record { allowed = []; denied = [] }

abbrev eth_policies : Policies
eth_policies = record { allowed = eth_any ∷ []; denied = codes "eth0" ∷ [] }

abbrev eth_rules : List Rule
eth_rules = allow eth_any ∷ deny (codes "eth0") ∷ []

parsed : element_parse_policy (some (codes ",eth*,,!eth0,")) no_policies ≡ eth_policies
unfolding element_parse_policy
parsed = refl

eth0_denied : element_allowed eth_policies (codes "eth0") none ≡ false
unfolding element_allowed match_mask tolower
eth0_denied = refl

man_page_example_refused : match_mask (some (codes "h*0")) (some (codes "host00")) ≡ false
unfolding match_mask tolower
man_page_example_refused = refl

eth_any-OnlyLastStar : OnlyLastStar eth_any
eth_any-OnlyLastStar =
    literal (omega arith) (literal (omega arith) (literal (omega arith) (last_star refl)))

eth0-OnlyLastStar : OnlyLastStar (codes "eth0")
eth0-OnlyLastStar =
    literal (omega arith)
      (literal (omega arith) (literal (omega arith) (literal (omega arith) no_star)))

match_mask_star_too_short_example :
    Matches (codes "*0") (codes "0.0")
    × (match_mask (some (codes "*0")) (some (codes "0.0")) ≡ false)
match_mask_star_too_short_example = match_mask_star_too_short b'0' (codes ".") (omega arith)

element_allowed_iff_example : (element_allowed eth_policies eth1 none ≡ true) ↔ (
    (¬ Covers eth1 (codes "eth0" ∷ []))
    × ((eth_policies.allowed ≡ []) ⊎ Covers eth1 (eth_any ∷ [])))
element_allowed_iff_example =
    element_allowed_iff eth_policies eth1 (eth_any-OnlyLastStar, tt) (eth0-OnlyLastStar, tt)

element_parse_policy_example :
    element_parse_policy (some (codes "eth*,!eth0")) no_policies ≡ eth_policies
element_parse_policy_example = element_parse_policy-print_rules eth_rules no_policies (omega arith)
