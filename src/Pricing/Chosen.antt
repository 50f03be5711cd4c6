-- ===== src/Pricing/Chosen.antt =====
-- Which prices an estimate uses.
use mathlib.Core.List.{Memᴰ}
use codex_balancer.Prelude.{
  ◌≤◌, ◌≡◌, refl, sym, inl, inr, if◌then◌else◌, true, false, none, str_eq, List, [], ◌∷◌, ℤ, String,
  arith, All, All-map, Bool-cases,
}
use codex_balancer.Prelude.Maps.{lookup}
use codex_balancer.Account.Window.{Time}
use codex_balancer.Pricing.Usage.{lt64}
use codex_balancer.Pricing.Estimate.{
  TokenRates, PriceTier, ModelPrice, byte_length, sort_ids, is_variant, rates_from, prices_for,
  new_price_snapshot, alias_of, or_variant, prices_under,
}
use codex_balancer.Pricing.Matching.{
  ids_of, sort_ids_lem, sort_ids-from, matching_id_lem, matching_id-mem, matching_id-some,
}

-- In the snapshot of a catalogue, a model whose name, after the alias, is not itself listed but is a
-- variant of some listed id is priced as the longest such id: the name is a variant of the id whose
-- prices it gets, and no listed id that it is a variant of is longer.
pub prices_for_longest :
    (models : List (String × ModelPrice)) (fetched_at : Time) (model other : String)
    → lookup str_eq (alias_of model) models ≡ none
    → Memᴰ other (ids_of models)
    → is_variant (alias_of model) other ≡ true
    → (id : String) × (prices_for (new_price_snapshot models fetched_at) model
        ≡ lookup str_eq id models)
      × Memᴰ id (ids_of models)
      × (is_variant (alias_of model) id ≡ true)
      × (byte_length other ≤ byte_length id)
unfolding prices_for new_price_snapshot
prices_for_longest models fetched_at model other unlisted m v =
    let (sorted, listed) = sort_ids_lem models in
    let name = alias_of model in
    let (id, found) = matching_id-some name other (sort_ids models) (listed other m) v in
    let (variant, longest) =
      matching_id_lem name other (sort_ids models) id sorted (listed other m) v found in
    (
      id,
      rw (unlisted, or_variant, found, prices_under) refl,
      sort_ids-from models id (matching_id-mem name id (sort_ids models) found),
      variant,
      longest,
    )

-- The rates of the last tier that the input reaches, of all the tiers.
unfoldable pub reached_rates : ℤ → TokenRates → List PriceTier → TokenRates
reached_rates input rates [] = rates
reached_rates input rates (tier ∷ tiers) =
    reached_rates input (if lt64 input tier.min_input then rates else tier.rates) tiers

-- No tier starts before one that stands before it.
abbrev pub IsAscending : List PriceTier → Type 0
IsAscending [] = Unit
IsAscending (tier ∷ tiers) =
    All (λ t. lt64 t.min_input tier.min_input ≡ false) tiers × IsAscending tiers

unreached :
    (input : ℤ) (rates : TokenRates) (tiers : List PriceTier)
    → All (λ t. lt64 input t.min_input ≡ true) tiers
    → reached_rates input rates tiers ≡ rates
unfolding reached_rates
unreached input rates [] h = refl
unreached input rates (tier ∷ tiers) (late, h) = rw late (unreached input rates tiers h)

-- Of tiers in ascending order, the loop that stops at the first tier that the input does not reach
-- gives the rates of the last one that it reaches.
pub rates_from-eq-reached_rates :
    (input : ℤ) (rates : TokenRates) (tiers : List PriceTier)
    → IsAscending tiers
    → rates_from input rates tiers ≡ reached_rates input rates tiers
unfolding rates_from reached_rates
rates_from-eq-reached_rates input rates [] h = refl
rates_from-eq-reached_rates input rates (tier ∷ tiers) (later, h) =
    elim (Bool-cases (lt64 input tier.min_input)) [
      | inl late ↦ rw late (
          sym (
            unreached input rates tiers
              (All-map _ _ tiers (λ t p. beyond input tier.min_input t.min_input late p) later)))
      | inr reached ↦ rw reached (rates_from-eq-reached_rates input tier.rates tiers h)
    ]
  where
    beyond : (a b c : ℤ) → lt64 a b ≡ true → lt64 c b ≡ false → lt64 a c ≡ true
    beyond a b c p q = ground arith
