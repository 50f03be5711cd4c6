-- ===== src/Stats/AccountCosts.antt =====
-- The monthly costs of the accounts of `Stats` of internal/app/stats.go, as changes and `reprice` leave them.
use codex_balancer.Prelude.{
  ◌≡◌, refl, if◌then◌else◌, Bool, Bool-cases, Option-cases, eq_iff, ap, subst, ◌∙◌, inl, inr,
  Option, none, some, List, [], ◌∷◌, String, str_eq, ℤ,
}
use codex_balancer.Prelude.Maps.{lookup, modify_or, value_or, lookup-modify_or, IsKeyed}
use codex_balancer.Pricing.Usage.{UsageCost, no_cost, add_cost}
use codex_balancer.Stats.Months.{Costs}
use codex_balancer.Stats.State.{AccountStats, new_account, Stats}
use codex_balancer.Stats.Usage.{clear_costs, write_costs, set_cost, price_account}

abbrev cost_in : Option AccountStats → UsageCost
cost_in none = no_cost
cost_in (some a) = a.monthly_cost

-- The cost of an account in the current month.
unfoldable pub monthly_cost : Stats → String → UsageCost
unfolding lookup
monthly_cost s id = cost_in (lookup str_eq id s.accounts)

abbrev pub cost_at : String → List (String × AccountStats) → UsageCost
cost_at id accounts = cost_in (lookup str_eq id accounts)

cost_at-value_or :
    (j : String) (accounts : List (String × AccountStats))
    → (value_or new_account (lookup str_eq j accounts)).monthly_cost ≡ cost_at j accounts
cost_at-value_or j accounts = elim (Option-cases (lookup str_eq j accounts)) [
  | inl e ↦ rw e refl
  | inr (a, e) ↦ rw e refl
]

cost_at-modify_or :
    (id j : String) (f : AccountStats → AccountStats) (accounts : List (String × AccountStats))
    → cost_at id (modify_or new_account j f accounts) ≡ (
        if str_eq j id
        then (f (value_or new_account (lookup str_eq j accounts))).monthly_cost
        else cost_at id accounts)
cost_at-modify_or id j f accounts =
    rw (lookup-modify_or new_account id j f accounts)
      (elim (Bool-cases (str_eq j id)) [ inl e ↦ rw e refl | inr e ↦ rw e refl ])

-- A change of an account that leaves its cost alone.
pub cost_at-modify_or_same :
    (id j : String) (f : AccountStats → AccountStats) (accounts : List (String × AccountStats))
    → ((a : AccountStats) → (f a).monthly_cost ≡ a.monthly_cost)
    → cost_at id (modify_or new_account j f accounts) ≡ cost_at id accounts
cost_at-modify_or_same id j f accounts same =
    let h = cost_at-modify_or id j f accounts in
    let v = same (value_or new_account (lookup str_eq j accounts)) in
    elim (Bool-cases (str_eq j id)) [
      | inl e ↦
          let eq : j ≡ id = (eq_iff j id).0 e in
          h ∙ rw e (v ∙ cost_at-value_or j accounts ∙ ap (λ k. cost_at k accounts) eq)
      | inr e ↦ h ∙ rw e refl
    ]

pub cost_at-price :
    (id j : String) (price : ℤ × Bool) (accounts : List (String × AccountStats))
    → cost_at id (modify_or new_account j (price_account price) accounts)
      ≡ (if str_eq j id then add_cost (cost_at j accounts) price else cost_at id accounts)
cost_at-price id j price accounts =
    rw (cost_at-modify_or id j (price_account price) accounts)
      (rw (cost_at-value_or j accounts) refl)

pub cost_at-clear :
    (id : String) (accounts : List (String × AccountStats))
    → cost_at id (clear_costs accounts) ≡ no_cost
unfolding lookup clear_costs
cost_at-clear id [] = refl
cost_at-clear id ((j, a) ∷ accounts) = elim (Bool-cases (str_eq j id)) [
  | inl e ↦ rw e refl
  | inr e ↦ rw e (cost_at-clear id accounts)
]

-- The costs written into the accounts are those of the map, as no key stands in it twice.
pub cost_at-write :
    (id : String) (costs : Costs) (accounts : List (String × AccountStats))
    → IsKeyed costs
    → cost_at id (write_costs costs accounts)
      ≡ value_or (cost_at id accounts) (lookup str_eq id costs)
unfolding write_costs lookup
cost_at-write id [] accounts h = refl
cost_at-write id ((j, cost) ∷ costs) accounts (new, h) =
    let later = cost_at-write id costs (modify_or new_account j (set_cost cost) accounts) h in
    let here = cost_at-modify_or id j (set_cost cost) accounts in
    elim (Bool-cases (str_eq j id)) [
      | inl e ↦ rw e (
          let eq : j ≡ id = (eq_iff j id).0 e in
          let gone : lookup str_eq id costs ≡ none =
            subst (λ k. lookup str_eq k costs ≡ none) eq new in
          later ∙ rw gone (here ∙ rw e refl))
      | inr e ↦ rw e (later ∙ ap (λ c. value_or c (lookup str_eq id costs)) (here ∙ rw e refl))
    ]
