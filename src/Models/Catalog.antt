-- ===== src/Models/Catalog.antt =====
-- `modelCatalog` of internal/app/models.go. Of a model's entry, a JSON object, the fields that the
-- catalogue reads; a slug is the code points of a text. An account is its routing candidate.
use codex_balancer.Prelude.{
  ℕ, ◌+◌, ◌*◌, ltb, if◌then◌else◌, Bool, true, false, not, ◌&&◌, ◌||◌, Option, none, some, List, [],
  ◌∷◌, ◌++◌, any, String, str_eq, codes, trim_space, to_lower, codes_eq, length, ◌==◌,
}
use codex_balancer.Prelude.Maps.{lookup, insert}
use codex_balancer.Account.Window.{Time, minute, hour, before}
use codex_balancer.Pricing.Tier.{Tier, canonical_service_tier}
use codex_balancer.Pricing.Estimate.{has_prefix}
use codex_balancer.Routing.Candidate.{Candidate, available, credit_available}

pub record ModelEntry : Type 0 where
  pub slug : List ℕ
  pub service_tiers : List Tier
  pub additional_speed_tiers : List Tier

abbrev pub Models : Type 0
Models = List (List ℕ × ModelEntry)

pub record ModelCatalog : Type 0 where
  pub accounts : List (String × Models)
  pub active : List String
  pub client_version : String
  pub next_refresh : Time

abbrev pub new_model_catalog : ModelCatalog
new_model_catalog = record { accounts = []; active = []; client_version = ""; next_refresh = 0 }

abbrev pub is_empty : List ℕ → Bool
is_empty [] = true
is_empty (c ∷ s) = false

unfoldable pub model_slug : ModelEntry → List ℕ
unfolding trim_space to_lower
model_slug entry = to_lower (trim_space entry.slug)

unfoldable pub model_supports_service_tier : ModelEntry → Tier → Bool
unfolding canonical_service_tier
model_supports_service_tier entry tier =
    any
      (λ id.
        not (is_empty (canonical_service_tier id)) && codes_eq (canonical_service_tier id) tier)
      entry.service_tiers
    || any (λ t. not (is_empty t) && codes_eq (canonical_service_tier t) tier)
        entry.additional_speed_tiers

-- The loop over the entries that came for an account; one without a slug is left out.
unfoldable pub models_of : List ModelEntry → Models → Models
unfolding insert model_slug
models_of [] models = models
models_of (entry ∷ entries) models =
    let slug = model_slug entry in
    models_of entries (if is_empty slug then models else insert codes_eq slug entry models)

abbrev is_active : List String → String → Bool
is_active active id = any (λ other. str_eq other id) active

abbrev keep_known : String → Option Models → List (String × Models) → List (String × Models)
keep_known id none accounts = accounts
keep_known id (some models) accounts = insert str_eq id models accounts

-- The loop that keeps what is known of the active accounts.
unfoldable pub keep_previous :
    List (String × Models) → List String → List (String × Models) → List (String × Models)
unfolding lookup insert
keep_previous previous [] accounts = accounts
keep_previous previous (id ∷ active) accounts =
    keep_previous previous active (keep_known id (lookup str_eq id previous) accounts)

-- The loop over what was fetched.
unfoldable pub add_fresh :
    List String → List (String × List ModelEntry) → List (String × Models) → List (String × Models)
unfolding models_of insert
add_fresh active [] accounts = accounts
add_fresh active ((id, entries) ∷ fresh) accounts =
    add_fresh active fresh
      (if is_active active id then insert str_eq id (models_of entries []) accounts else accounts)

unfoldable pub replace :
    Time → List String → List (String × List ModelEntry) → String → ModelCatalog → ModelCatalog
unfolding keep_previous add_fresh
replace now active fresh client_version c = record {
  accounts = add_fresh active fresh (keep_previous c.accounts active []);
  active = active;
  client_version = client_version;
  next_refresh = if length fresh == length active then now + hour else now + 5 * minute;
}

-- `strings.HasPrefix(model, slug+"-")`. Of two prefixes of one text the one with more bytes has more
-- code points.
abbrev is_variant_of : List ℕ → List ℕ → Bool
is_variant_of model slug = has_prefix model (slug ++ codes "-")

-- The loop over the entries, with the best match so far and its length.
unfoldable pub longest_match : List ℕ → Models → ℕ → Option ModelEntry → Option ModelEntry
unfolding has_prefix
longest_match model [] size found = found
longest_match model ((slug, entry) ∷ models) size found =
    let better = is_variant_of model slug && ltb size (length slug) in
    longest_match model models (if better then length slug else size)
      (if better then some entry else found)

abbrev exact_or : List ℕ → Models → Option ModelEntry → Option ModelEntry
exact_or model models (some entry) = some entry
exact_or model models none = longest_match model models 0 none

unfoldable pub matching_model_entry : Models → List ℕ → Option ModelEntry
unfolding lookup longest_match
matching_model_entry models model = exact_or model models (lookup codes_eq model models)

-- What is known of an account; nothing reads as no models.
abbrev pub models_known : ModelCatalog → String → Bool
models_known c id = elim (lookup str_eq id c.accounts) [ none ↦ false | some models ↦ true ]

abbrev known_models : Option Models → Models
known_models none = []
known_models (some models) = models

abbrev supports : Tier → Option ModelEntry → Bool
supports tier none = false
supports tier (some entry) = is_empty tier || model_supports_service_tier entry tier

-- The account has the model, with the service tier if one is asked for.
unfoldable pub offers : ModelCatalog → List ℕ → Tier → String → Bool
unfolding lookup matching_model_entry model_supports_service_tier
offers c model tier id =
    supports tier (matching_model_entry (known_models (lookup str_eq id c.accounts)) model)

abbrev pub serviceable : Time → Candidate → Bool
serviceable now k = available k now || credit_available k now

-- The loop over the accounts, with those allowed so far and whether one of them is available.
unfoldable pub allowed_from :
    ModelCatalog → Time → List ℕ → Tier → List Candidate → List String → Bool → Option (List String)
unfolding offers lookup
allowed_from c now model tier [] allowed matched = if matched then some allowed else none
allowed_from c now model tier (k ∷ candidates) allowed matched =
    let passed = allowed_from c now model tier candidates allowed matched in
    let taken =
      allowed_from c now model tier candidates (allowed ++ k.id ∷ [])
        (matched || serviceable now k) in
    if serviceable now k && not (models_known c k.id)
    then none
    else if offers c model tier k.id
    then taken
    else passed

-- `none` is the nil map, which allows every account.
unfoldable pub allowed_accounts :
    ModelCatalog → Time → List Candidate → List ℕ → Tier → Option (List String)
unfolding allowed_from trim_space to_lower canonical_service_tier
allowed_accounts c now candidates model service_tier =
    let name = to_lower (trim_space model) in
    if is_empty name
    then none
    else allowed_from c now name (canonical_service_tier service_tier) candidates [] false

abbrev every : (String → Bool) → List String → Bool
every p [] = true
every p (id ∷ ids) = p id && every p ids

unfoldable pub needs_refresh : List String → String → Time → ModelCatalog → Bool
needs_refresh active client_version now c =
    not (str_eq client_version "")
    && (not (str_eq c.client_version client_version)
        || not (before now c.next_refresh)
        || not (every (is_active c.active) active)
        || not (length c.active == length active))

unfoldable pub invalidate : ModelCatalog → ModelCatalog
invalidate c = record c { next_refresh = 0 }
