-- ===== src/Pricing/Tier.antt =====
-- The names of service tiers: `canonicalServiceTier` of internal/app/models.go and
-- `serviceTierPriceMode` of pricing.go. A name is its code points.
use codex_balancer.Prelude.{ℕ, if◌then◌else◌, ◌||◌, List, [], codes, trim_space, to_lower, codes_eq}

abbrev pub Tier : Type 0
Tier = List ℕ

abbrev pub service_tier_priority : Tier
service_tier_priority = codes "priority"

abbrev pub ultrafast : Tier
ultrafast = codes "ultrafast"

unfoldable pub canonical_service_tier : Tier → Tier
unfolding trim_space to_lower codes_eq
canonical_service_tier tier =
    let t = to_lower (trim_space tier) in
    if codes_eq t [] || codes_eq t (codes "auto") || codes_eq t (codes "default")
    then []
    else if codes_eq t (codes "fast")
    then service_tier_priority
    else t

-- `priceModeFast`, `priceModeUltrafast`, and the empty mode.
pub data PriceMode : Type 0 where
  standard fast ultra : PriceMode

unfoldable pub service_tier_price_mode : Tier → PriceMode
unfolding canonical_service_tier
service_tier_price_mode tier =
    let t = canonical_service_tier tier in
    if codes_eq t service_tier_priority
    then fast
    else if codes_eq t ultrafast
    then ultra
    else standard
