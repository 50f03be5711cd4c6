-- ===== src/Stats/Sums.antt =====
-- The counts of `Stats` of internal/app/stats.go against those of its accounts.
use codex_balancer.Prelude.{
  ℕ, ◌+◌, ◌%◌, ◌^◌, ◌≡◌, refl, Bool-cases, inl, inr, List, [], ◌∷◌, String, str_eq, arith,
}
use codex_balancer.Prelude.Maps.{modify_or}
use codex_balancer.Pricing.Usage.{no_cost}
use codex_balancer.Account.Window.{Time}
use codex_balancer.Stats.Snapshot.{read_account, read_accounts}
use codex_balancer.Stats.Months.{Costs}
use codex_balancer.Stats.Usage.{set_cost, clear_costs, write_costs}
use codex_balancer.Stats.State.{AccountStats, new_account}

-- A count, added up over the accounts.
unfoldable pub total : (AccountStats → ℕ) → List (String × AccountStats) → ℕ
total count [] = 0
total count ((id, a) ∷ accounts) = count a + total count accounts

module _ (count : AccountStats → ℕ) (f : AccountStats → AccountStats) (delta : ℕ)
    (adds : (a : AccountStats) → count (f a) % 2 ^ 64 ≡ (count a + delta) % 2 ^ 64)
    (none_new : count new_account ≡ 0) where
  pub total-modify_or :
      (id : String) (accounts : List (String × AccountStats))
      → total count (modify_or new_account id f accounts) % 2 ^ 64
        ≡ (total count accounts + delta) % 2 ^ 64
  unfolding total modify_or
  total-modify_or id [] = let h = adds new_account in omega arith
  total-modify_or id ((j, a) ∷ accounts) = elim (Bool-cases (str_eq j id)) [
    | inl e ↦ rw e (let h = adds a in omega arith)
    | inr e ↦ rw e (let ih = total-modify_or id accounts in omega arith)
  ]

total-clear_costs :
    (count : AccountStats → ℕ)
    → ((a : AccountStats) → count (set_cost no_cost a) ≡ count a)
    → (accounts : List (String × AccountStats))
    → total count (clear_costs accounts) ≡ total count accounts
unfolding total clear_costs
total-clear_costs count same [] = refl
total-clear_costs count same ((id, a) ∷ accounts) =
    omega (arith, same a, total-clear_costs count same accounts)

-- The turns and the open sockets of all accounts, as the server counts them.
abbrev pub IsCounted : ℕ → ℕ → List (String × AccountStats) → Type 0
IsCounted turns ws_open accounts =
    (turns ≡ total (λ a. a.turns) accounts % 2 ^ 64)
    × (ws_open ≡ total (λ a. a.ws_open) accounts % 2 ^ 64)

pub modify_or-IsCounted :
    (id : String) (f : AccountStats → AccountStats) (turn socket : ℕ)
    → ((a : AccountStats)
        → ((f a).turns % 2 ^ 64 ≡ (a.turns + turn) % 2 ^ 64)
          × ((f a).ws_open % 2 ^ 64 ≡ (a.ws_open + socket) % 2 ^ 64))
    → (turns ws_open : ℕ) (accounts : List (String × AccountStats))
    → IsCounted turns ws_open accounts
    → IsCounted
        ((turns + turn) % 2 ^ 64)
        ((ws_open + socket) % 2 ^ 64)
        (modify_or new_account id f accounts)
modify_or-IsCounted id f turn socket adds turns ws_open accounts (t, w) =
    let ht = total-modify_or (λ a. a.turns) f turn (λ a. (adds a).0) refl id accounts in
    let hw = total-modify_or (λ a. a.ws_open) f socket (λ a. (adds a).1) refl id accounts in
    (omega (arith, ht, t), omega (arith, hw, w))

-- A change that leaves both counts of an account alone.
pub modify_or-IsCounted_same :
    (id : String) (f : AccountStats → AccountStats)
    → ((a : AccountStats) → ((f a).turns ≡ a.turns) × ((f a).ws_open ≡ a.ws_open))
    → (turns ws_open : ℕ) (accounts : List (String × AccountStats))
    → IsCounted turns ws_open accounts
    → IsCounted turns ws_open (modify_or new_account id f accounts)
modify_or-IsCounted_same id f same turns ws_open accounts (t, w) =
    let (ht, hw) =
      modify_or-IsCounted id f 0 0
        (λ a. let (st, sw) = same a in (omega (arith, st), omega (arith, sw))) turns ws_open
        accounts (t, w) in
    (omega (arith, ht, t), omega (arith, hw, w))

pub clear_costs-IsCounted :
    (turns ws_open : ℕ) (accounts : List (String × AccountStats))
    → IsCounted turns ws_open accounts
    → IsCounted turns ws_open (clear_costs accounts)
clear_costs-IsCounted turns ws_open accounts (t, w) =
    let ht = total-clear_costs (λ a. a.turns) (λ a. refl) accounts in
    let hw = total-clear_costs (λ a. a.ws_open) (λ a. refl) accounts in
    (omega (arith, ht, t), omega (arith, hw, w))

total-read_accounts :
    (count : AccountStats → ℕ) (now : Time)
    → ((a : AccountStats) → count (read_account now a) ≡ count a)
    → (accounts : List (String × AccountStats))
    → total count (read_accounts now accounts) ≡ total count accounts
unfolding total read_accounts
total-read_accounts count now same [] = refl
total-read_accounts count now same ((id, a) ∷ accounts) =
    omega (arith, same a, total-read_accounts count now same accounts)

pub read_accounts-IsCounted :
    (now : Time) (turns ws_open : ℕ) (accounts : List (String × AccountStats))
    → IsCounted turns ws_open accounts
    → IsCounted turns ws_open (read_accounts now accounts)
read_accounts-IsCounted now turns ws_open accounts (t, w) =
    let ht = total-read_accounts (λ a. a.turns) now (λ a. refl) accounts in
    let hw = total-read_accounts (λ a. a.ws_open) now (λ a. refl) accounts in
    (omega (arith, ht, t), omega (arith, hw, w))

pub write_costs-IsCounted :
    (turns ws_open : ℕ) (costs : Costs) (accounts : List (String × AccountStats))
    → IsCounted turns ws_open accounts
    → IsCounted turns ws_open (write_costs costs accounts)
unfolding write_costs
write_costs-IsCounted turns ws_open [] accounts h = h
write_costs-IsCounted turns ws_open ((id, cost) ∷ costs) accounts h =
    write_costs-IsCounted turns ws_open costs _
      (modify_or-IsCounted_same id (set_cost cost) (λ a. (refl, refl)) turns ws_open accounts h)
