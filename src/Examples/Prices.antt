-- ===== src/Examples/Prices.antt =====
-- The theorems on prices, at a catalogue of two models.
use codex_balancer.Prelude.{◌≡◌, ◌≤◌, refl, true, none, some, str_eq, List, [], ◌∷◌, String, ℤ, pos}
use codex_balancer.Prelude.Maps.{lookup}
use codex_balancer.Examples.Data.{now}
use mathlib.Core.List.{Memᴰ}
use codex_balancer.Pricing.Estimate.{
  TokenRates, PriceTier, ModelPrice, is_variant, matching_id, sort_ids, prices_for,
  new_price_snapshot, alias_of, byte_length, rates_from,
}
use codex_balancer.Pricing.Matching.{ids_of}
use codex_balancer.Pricing.Chosen.{prices_for_longest, reached_rates, rates_from-eq-reached_rates}

abbrev flat : ℤ → TokenRates
flat n = record { input = n; cached = n; cache_write = n; output = n }

abbrev long_tiers : List PriceTier
long_tiers =
    record { min_input = pos 1000; rates = flat (pos 2) }
    ∷ record { min_input = pos 5000; rates = flat (pos 3) }
    ∷ []

abbrev price : ModelPrice
price = record {
  standard_tiers = record { min_input = pos 0; rates = flat (pos 1) } ∷ long_tiers;
  fast_tiers = [];
  ultrafast_tiers = [];
}

abbrev pub catalogue : List (String × ModelPrice)
catalogue = ("gpt-5", price) ∷ ("gpt-5-mini", price) ∷ []

unlisted : lookup str_eq (alias_of "gpt-5-mini-2") catalogue ≡ none
unfolding lookup
unlisted = refl

prices_for_longest_example :
    (id : String) × (prices_for (new_price_snapshot catalogue now) "gpt-5-mini-2"
      ≡ lookup str_eq id catalogue)
    × Memᴰ id (ids_of catalogue)
    × (is_variant (alias_of "gpt-5-mini-2") id ≡ true)
    × (byte_length "gpt-5" ≤ byte_length id)
unfolding codex_balancer.Pricing.Estimate.has_prefix
prices_for_longest_example =
    prices_for_longest catalogue now "gpt-5-mini-2" "gpt-5" unlisted (Memᴰ.head refl) refl

-- The variant of the longer id takes that id.
longer_id : matching_id "gpt-5-mini-2" (sort_ids catalogue) ≡ some "gpt-5-mini"
unfolding matching_id sort_ids byte_length codex_balancer.Pricing.Estimate.has_prefix
longer_id = refl

rates_from-eq-reached_rates_example :
    rates_from (pos 1500) (flat (pos 1)) long_tiers
    ≡ reached_rates (pos 1500) (flat (pos 1)) long_tiers
rates_from-eq-reached_rates_example =
    rates_from-eq-reached_rates (pos 1500) (flat (pos 1)) long_tiers ((refl, tt), (tt, tt))
