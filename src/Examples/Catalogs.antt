-- ===== src/Examples/Catalogs.antt =====
-- The theorems on the catalogue of models and on the limit of logins, at two accounts and three logins.
use codex_balancer.Prelude.{
  ◌*◌, ◌-◌, ◌++◌, ℕ, ◌+◌, ◌≤◌, ◌≡◌, refl, if◌then◌else◌, Bool, not, ◌||◌, Option, none, some, List,
  [], ◌∷◌, codes, trim_space, to_lower, arith,
}
use codex_balancer.Account.Window.{minute}
use codex_balancer.Pricing.Tier.{canonical_service_tier}
use codex_balancer.Models.Catalog.{
  is_empty, ModelEntry, ModelCatalog, new_model_catalog, replace, allowed_accounts,
}
use codex_balancer.Models.Allowed.{some_unknown, some_offer, offering, allowed_accounts_lem}
use codex_balancer.Admin.Login.{AdminAuth, allowed_logins, allowed_logins-bound}
use codex_balancer.Examples.Data.{now, pair}

abbrev entry : ModelEntry
entry = record {
  slug = codes "GPT-5";
  service_tiers = codes "fast" ∷ [];
  additional_speed_tiers = [];
}

-- Both accounts are known, and the first one has the model.
abbrev two_accounts : ModelCatalog
two_accounts =
    replace now ("first" ∷ "second" ∷ []) (("first", entry ∷ []) ∷ ("second", []) ∷ []) "1.0"
      new_model_catalog

allowed_accounts_lem_example :
    let name = to_lower (trim_space (codes "gpt-5-codex")) in
    let tier = canonical_service_tier (codes "priority") in
    allowed_accounts two_accounts now pair (codes "gpt-5-codex") (codes "priority") ≡ (
      if is_empty name
        || some_unknown two_accounts now name tier pair
        || not (some_offer two_accounts now name tier pair)
      then none
      else some (offering two_accounts now name tier pair))
allowed_accounts_lem_example =
    allowed_accounts_lem two_accounts now pair (codes "gpt-5-codex") (codes "priority")

-- Only the first account has a model that the name is a variant of.
only_first :
    allowed_accounts two_accounts now pair (codes "gpt-5-codex") (codes "priority")
    ≡ some ("first" ∷ [])
unfolding allowed_accounts codex_balancer.Routing.Candidate.available
    codex_balancer.Routing.Candidate.included_routing codex_balancer.Account.Mode.routable_plan
    codex_balancer.Routing.Candidate.weekly_exhausted codex_balancer.Account.Window.longest_window
    codex_balancer.Prelude.float_ge codex_balancer.Routing.Candidate.quota_known replace
    codex_balancer.Prelude.Maps.erase
only_first = refl

abbrev busy : AdminAuth
busy = record { login_window = 0; login_attempts = 9 }

allowed_logins-bound_example : allowed_logins (1 ∷ 2 ∷ minute ∷ []) busy + busy.login_attempts ≤ 20
allowed_logins-bound_example =
    allowed_logins-bound (1 ∷ 2 ∷ minute ∷ []) busy 1 (omega arith)
      ((omega arith, omega arith, (omega arith, omega arith, (omega arith, omega arith, tt))))

-- Ten attempts at the end of a window, and ten when the next one begins.
abbrev ten_at : ℕ → List ℕ
ten_at t = t ∷ t ∷ t ∷ t ∷ t ∷ t ∷ t ∷ t ∷ t ∷ t ∷ []

abbrev idle_auth : AdminAuth
idle_auth = record { login_window = minute; login_attempts = 0 }

twenty_allowed : allowed_logins (ten_at (2 * minute - 1) ++ ten_at (2 * minute)) idle_auth ≡ 20
unfolding allowed_logins
twenty_allowed = refl
