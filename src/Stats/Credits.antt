-- ===== src/Stats/Credits.antt =====
-- The estimate of credits: `estimateCodexCredits` of internal/app/credits.go with its table.
use codex_balancer.Prelude.{
  ℕ, ◌+◌, ◌-◌, ◌/◌, ◌==◌, if◌then◌else◌, Bool, true, false, ◌||◌, Option, none, some, List, [], ◌∷◌,
  ℤ, pos, negsuc, String, str_eq,
}
use codex_balancer.Pricing.Usage.{ResponseUsage, add64, sub64, mul64, max64}
use codex_balancer.Pricing.Tier.{Tier, PriceMode, standard, fast, ultra, service_tier_price_mode}
use codex_balancer.Pricing.Estimate.{is_variant, has_prefix}

pub record CreditMultiplier : Type 0 where
  pub numerator : ℕ
  pub denominator : ℕ

pub record CreditRates : Type 0 where
  pub model : String
  pub input : ℕ
  pub cached : ℕ
  pub output : ℕ
  pub fast_rate : CreditMultiplier
  pub ultrafast_rate : CreditMultiplier

abbrev times : ℕ → ℕ → CreditMultiplier
times n d = record { numerator = n; denominator = d }

abbrev rates : String → ℕ → ℕ → ℕ → CreditMultiplier → CreditMultiplier → CreditRates
rates model input cached output fast_rate ultrafast_rate = record {
  model = model;
  input = input;
  cached = cached;
  output = output;
  fast_rate = fast_rate;
  ultrafast_rate = ultrafast_rate;
}

-- A multiplier that the table leaves out.
abbrev unset : CreditMultiplier
unset = times 0 0

abbrev included_fast : CreditMultiplier
included_fast = times 5 2

abbrev included_ultrafast : CreditMultiplier
included_ultrafast = times 8 1

abbrev first_rates : CreditRates
first_rates = rates "gpt-5.6-sol" 100000 10000 500000 included_fast unset

unfoldable pub codex_credit_rates : List CreditRates
codex_credit_rates =
    first_rates
    ∷ rates "gpt-5.6-terra" 50000 5000 300000 included_fast unset
    ∷ rates "gpt-5.6-luna" 5000 500 30000 included_fast unset
    ∷ rates "gpt-5.5" 125000 12500 750000 included_fast unset
    ∷ rates "gpt-5.4-mini" 18750 1875 113000 (times 2 1) unset
    ∷ rates "gpt-5.4" 62500 6250 375000 (times 2 1) unset
    ∷ rates "daybreak-blue" 100000 10000 500000 unset unset
    ∷ rates "daybreak-red" 312500 31250 1875000 unset unset
    ∷ rates "gpt-6-astra" 250000 25000 1250000 included_fast included_ultrafast
    ∷ rates "gpt-6.1-sol" 50000 2500 250000 included_fast included_ultrafast
    ∷ rates "gpt-6.1-terra" 25000 1250 125000 included_fast unset
    ∷ rates "gpt-6-sol" 50000 5000 250000 included_fast unset
    ∷ rates "gpt-6-luna" 2500 250 12500 included_fast unset
    ∷ []

unfoldable pub rates_in : String → List CreditRates → Option CreditRates
unfolding has_prefix
rates_in model [] = none
rates_in model (r ∷ table) =
    let rest = rates_in model table in
    if str_eq model r.model || is_variant model r.model then some r else rest

unfoldable pub codex_rates_for_model : String → Option CreditRates
unfolding rates_in codex_credit_rates
codex_rates_for_model model =
    if str_eq model "gpt-5.6" then some first_rates else rates_in model codex_credit_rates

abbrev multiplier_of : PriceMode → CreditRates → CreditMultiplier
multiplier_of standard r = times 1 1
multiplier_of fast r = r.fast_rate
multiplier_of ultra r = r.ultrafast_rate

-- Division of an int64 by a positive one, towards 0.
abbrev quot64 : ℤ → ℕ → ℤ
quot64 (pos n) d = pos (n / d)
quot64 (negsuc n) d = let q = (n + 1) / d in if q == 0 then pos 0 else negsuc (q - 1)

abbrev credits_at : CreditRates → CreditMultiplier → ResponseUsage → ℤ × Bool
credits_at r m u =
    let cached = max64 u.cached_tokens (pos 0) in
    let input = max64 (sub64 u.input_tokens cached) (pos 0) in
    let credits =
      add64 (add64 (mul64 input (pos r.input)) (mul64 cached (pos r.cached)))
        (mul64 u.output_tokens (pos r.output)) in
    if m.denominator == 0
    then (pos 0, false)
    else (quot64 (mul64 credits (pos m.numerator)) m.denominator, true)

abbrev estimate_with : Option CreditRates → PriceMode → ResponseUsage → ℤ × Bool
estimate_with none mode u = (pos 0, false)
estimate_with (some r) mode u = credits_at r (multiplier_of mode r) u

unfoldable pub estimate_codex_credits : String → Tier → ResponseUsage → ℤ × Bool
unfolding codex_rates_for_model service_tier_price_mode
estimate_codex_credits model service_tier u =
    estimate_with (codex_rates_for_model model) (service_tier_price_mode service_tier) u
