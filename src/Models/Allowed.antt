-- ===== src/Models/Allowed.antt =====
-- The accounts that a request for a model may use: `allowedAccounts` of internal/app/models.go.
use codex_balancer.Prelude.{
  ℕ, ◌≡◌, refl, sym, ap, if◌then◌else◌, Bool, true, false, not, ◌&&◌, ◌||◌, Option, none, some,
  List, [], ◌∷◌, ◌++◌, any, String, arith, trim_space, to_lower,
}
use codex_balancer.Account.Window.{Time}
use codex_balancer.Pricing.Tier.{Tier, canonical_service_tier}
use codex_balancer.Routing.Candidate.{Candidate}
use codex_balancer.Models.Catalog.{
  is_empty, ModelCatalog, models_known, offers, serviceable, allowed_from, allowed_accounts,
}

append_assoc : (xs ys zs : List String) → (xs ++ ys) ++ zs ≡ xs ++ (ys ++ zs)
append_assoc [] ys zs = refl
append_assoc (x ∷ xs) ys zs = ap (λ l. x ∷ l) (append_assoc xs ys zs)

append_nil : (xs : List String) → xs ++ [] ≡ xs
append_nil [] = refl
append_nil (x ∷ xs) = ap (λ l. x ∷ l) (append_nil xs)

-- What one account adds to the decision.
one_account :
    (unknown offered serves matched more_unknown more_offer : Bool) (allowed : List String)
    (id : String) (rest : List String)
    → (if unknown
        then none
        else if offered
        then (if more_unknown
            then none
            else if (matched || serves) || more_offer
            then some ((allowed ++ id ∷ []) ++ rest)
            else none)
        else (if more_unknown
            then none
            else if matched || more_offer
            then some (allowed ++ rest)
            else none))
      ≡ (if (if unknown then true else more_unknown)
          then none
          else if matched || (if offered && serves then true else more_offer)
          then some (allowed ++ (if offered then id ∷ rest else rest))
          else none)
one_account unknown offered serves matched more_unknown more_offer allowed id rest =
    ground (arith, append_assoc allowed (id ∷ []) rest)

module _ (c : ModelCatalog) (now : Time) (model : List ℕ) (tier : Tier) where
  -- Some account that could serve now has models that are not known.
  abbrev pub some_unknown : List Candidate → Bool
  some_unknown candidates = any (λ k. serviceable now k && not (models_known c k.id)) candidates

  -- Some account that could serve now offers the model.
  abbrev pub some_offer : List Candidate → Bool
  some_offer candidates = any (λ k. offers c model tier k.id && serviceable now k) candidates

  abbrev pub offering : List Candidate → List String
  offering [] = []
  offering (k ∷ candidates) =
      if offers c model tier k.id then k.id ∷ offering candidates else offering candidates

  abbrev decision : List Candidate → List String → Bool → Option (List String)
  decision candidates allowed matched =
      if some_unknown candidates
      then none
      else if matched || some_offer candidates
      then some (allowed ++ offering candidates)
      else none

  allowed_from_lem :
      (candidates : List Candidate) (allowed : List String) (matched : Bool)
      → allowed_from c now model tier candidates allowed matched
        ≡ decision candidates allowed matched
  unfolding allowed_from
  allowed_from_lem [] allowed true = ap some (sym (append_nil allowed))
  allowed_from_lem [] allowed false = refl
  allowed_from_lem (k ∷ candidates) allowed matched =
      let taken =
        allowed_from_lem candidates (allowed ++ k.id ∷ []) (matched || serviceable now k) in
      let passed = allowed_from_lem candidates allowed matched in
      rw (taken, passed)
        (one_account (serviceable now k && not (models_known c k.id)) (offers c model tier k.id)
          (serviceable now k) matched (some_unknown candidates) (some_offer candidates) allowed k.id
          (offering candidates))

-- A request that names a model may use the accounts that offer it with the service tier; every account
-- is allowed, as if no model had been named, if some account that could serve now has models that are
-- not known, or none that could serve now offers the model.
pub allowed_accounts_lem :
    (c : ModelCatalog) (now : Time) (candidates : List Candidate) (model : List ℕ)
    (service_tier : Tier)
    → let name = to_lower (trim_space model) in
      let tier = canonical_service_tier service_tier in
      allowed_accounts c now candidates model service_tier ≡ (
        if is_empty name
          || some_unknown c now name tier candidates
          || not (some_offer c now name tier candidates)
        then none
        else some (offering c now name tier candidates))
unfolding allowed_accounts
allowed_accounts_lem c now candidates model service_tier =
    let name = to_lower (trim_space model) in
    let tier = canonical_service_tier service_tier in
    let loop = allowed_from_lem c now name tier candidates [] false in
    rw loop (
      whole (is_empty name) (some_unknown c now name tier candidates)
        (some_offer c now name tier candidates) (offering c now name tier candidates))
  where
    whole :
        (blank unknown offered : Bool) (ids : List String)
        → (if blank then none else if unknown then none else if offered then some ids else none)
          ≡ (if blank || unknown || not offered then none else some ids)
    whole blank unknown offered ids = ground arith
