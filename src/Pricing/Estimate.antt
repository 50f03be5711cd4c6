-- ===== src/Pricing/Estimate.antt =====
-- The price of a response: `priceSnapshot` of internal/app/pricing.go. The price catalogue is a map;
-- a missing mode of a model is an empty list of tiers.
use Prim.Native.String.{compare as string_compare}
use Prim.Native.Nat.{compare}
use codex_balancer.Prelude.{
  ℕ, ◌+◌, ltb, if◌then◌else◌, cmp_or, is_lt, Bool, true, false, ◌&&◌, Option, none, some, List, [],
  ◌∷◌, ◌++◌, ℤ, pos, String, str_eq, codes, ◌==◌, Ordering,
}
use codex_balancer.Prelude.Maps.{lookup}
use codex_balancer.Account.Window.{Time}
use codex_balancer.Pricing.Usage.{ResponseUsage, add64, sub64, mul64, max64, lt64}
use codex_balancer.Pricing.Tier.{Tier, PriceMode, standard, fast, ultra, service_tier_price_mode}

pub record TokenRates : Type 0 where
  pub input : ℤ
  pub cached : ℤ
  pub cache_write : ℤ
  pub output : ℤ

pub record PriceTier : Type 0 where
  pub min_input : ℤ
  pub rates : TokenRates

pub record ModelPrice : Type 0 where
  pub standard_tiers : List PriceTier
  pub fast_tiers : List PriceTier
  pub ultrafast_tiers : List PriceTier

pub record PriceSnapshot : Type 0 where
  pub models : List (String × ModelPrice)
  pub model_ids : List String
  pub fetched_at : Time

-- `len` of a Go string: the bytes of its code points in UTF-8.
abbrev code_bytes : ℕ → ℕ
code_bytes c = if ltb c 0x80 then 1 else if ltb c 0x800 then 2 else if ltb c 0x10000 then 3 else 4

abbrev bytes_of : List ℕ → ℕ
bytes_of [] = 0
bytes_of (c ∷ s) = code_bytes c + bytes_of s

unfoldable pub byte_length : String → ℕ
byte_length s = bytes_of (codes s)

-- Longer ids first, then in the order of texts.
abbrev pub compare_ids : String → String → Ordering
compare_ids left right =
    cmp_or (compare (byte_length right) (byte_length left)) (string_compare left right)

unfoldable pub insert_id : String → List String → List String
insert_id id [] = id ∷ []
insert_id id (other ∷ ids) =
    let rest = insert_id id ids in
    if is_lt (compare_ids other id) then other ∷ rest else id ∷ other ∷ ids

unfoldable pub sort_ids : List (String × ModelPrice) → List String
unfolding insert_id
sort_ids [] = []
sort_ids ((id, price) ∷ models) = insert_id id (sort_ids models)

unfoldable pub new_price_snapshot : List (String × ModelPrice) → Time → PriceSnapshot
unfolding sort_ids
new_price_snapshot models fetched_at = record {
  models = models;
  model_ids = sort_ids models;
  fetched_at = fetched_at;
}

-- `strings.HasPrefix(model, id+"-")`, on code points.
unfoldable pub has_prefix : List ℕ → List ℕ → Bool
has_prefix s [] = true
has_prefix [] (d ∷ t) = false
has_prefix (c ∷ s) (d ∷ t) = c == d && has_prefix s t

abbrev pub is_variant : String → String → Bool
is_variant model id = has_prefix (codes model) (codes id ++ codes "-")

abbrev pub alias_of : String → String
alias_of model = if str_eq model "codex-auto-review" then "gpt-5.6-luna" else model

-- The first id of the list that the model is a variant of.
unfoldable pub matching_id : String → List String → Option String
matching_id model [] = none
matching_id model (id ∷ ids) =
    let rest = matching_id model ids in if is_variant model id then some id else rest

abbrev pub prices_under : PriceSnapshot → Option String → Option ModelPrice
prices_under s none = none
prices_under s (some id) = lookup str_eq id s.models

abbrev pub or_variant : PriceSnapshot → String → Option ModelPrice → Option ModelPrice
or_variant s model (some price) = some price
or_variant s model none = prices_under s (matching_id model s.model_ids)

unfoldable pub prices_for : PriceSnapshot → String → Option ModelPrice
unfolding matching_id has_prefix
prices_for s model = or_variant s (alias_of model) (lookup str_eq (alias_of model) s.models)

abbrev pub tiers_of : ModelPrice → PriceMode → List PriceTier
tiers_of price standard = price.standard_tiers
tiers_of price fast = price.fast_tiers
tiers_of price ultra = price.ultrafast_tiers

-- The loop over the further tiers.
unfoldable pub rates_from : ℤ → TokenRates → List PriceTier → TokenRates
rates_from input rates [] = rates
rates_from input rates (tier ∷ tiers) =
    let rest = rates_from input tier.rates tiers in
    if lt64 input tier.min_input then rates else rest

unfoldable pub price_at : TokenRates → ResponseUsage → ℤ
price_at rates u =
    let input = max64 (sub64 (sub64 u.input_tokens u.cached_tokens) u.cache_write_tokens) (pos 0) in
    add64
      (add64 (add64 (mul64 input rates.input) (mul64 u.cached_tokens rates.cached))
        (mul64 u.cache_write_tokens rates.cache_write))
      (mul64 u.output_tokens rates.output)

abbrev pub price_of : List PriceTier → ResponseUsage → ℤ × Bool
price_of [] u = (pos 0, false)
price_of (tier ∷ tiers) u = (price_at (rates_from u.input_tokens tier.rates tiers) u, true)

abbrev estimate_with : Option ModelPrice → PriceMode → ResponseUsage → ℤ × Bool
estimate_with none mode u = (pos 0, false)
estimate_with (some price) mode u = price_of (tiers_of price mode) u

unfoldable pub estimate : PriceSnapshot → String → Tier → ResponseUsage → ℤ × Bool
unfolding prices_for rates_from price_at service_tier_price_mode
estimate s model service_tier u =
    estimate_with (prices_for s model) (service_tier_price_mode service_tier) u
