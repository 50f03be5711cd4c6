-- ===== src/Pool/Changed.antt =====
-- What a change of the stored accounts does to the account that it names, and to the others.
use codex_balancer.Prelude.{
  ◌≡◌, ◌≢◌, ◌<◌, max, refl, ap, ◌⊎◌, inl, inr, if◌then◌else◌, true, some, List, [], ◌∷◌, String,
  str_eq, eq_iff, arith, Bool-cases,
}
use codex_balancer.Account.Window.{after}
use codex_balancer.Account.Mode.{
  RoutingMode, normal, priority, paused, unknown, is_paused, normalized,
}
use codex_balancer.Account.State.{
  Tokens, Account, AccountState, account_from_state, claims_from_token, effective_routing_mode, id,
}
use codex_balancer.Pool.Changes.{
  is_routing_mode, with_routing_mode, with_credentials, find, change_at, rebuilt,
  update_routing_mode, set_routing_mode, or_current, persist_account_state,
}

module _ ⦃tokens : Tokens⦄ where
  -- The accounts after a change at an id.
  abbrev pub ChangedTo : List Account → String → Account → List Account → Type 0
  ChangedTo accounts wanted b changed =
      (find changed wanted ≡ some b)
      × ((other : String) → other ≢ wanted → find changed other ≡ find accounts other)

  change_at_lem :
      (change : Account → Account) (wanted : String)
      → ((a : Account) → id a ≡ wanted → id (change a) ≡ wanted)
      → (accounts : List Account) (a : Account) → find accounts wanted ≡ some a
      → (changed : List Account) × (change_at change accounts wanted ≡ some changed)
        × ChangedTo accounts wanted (change a) changed
  unfolding change_at find
  change_at_lem change wanted keeps [] a h = absurd (cc)
  change_at_lem change wanted keeps (b ∷ accounts) a h = elim (Bool-cases (str_eq (id b) wanted)) [
    | inl hit ↦
        let g : some b ≡ some a = rw hit at h in
        let s : b ≡ a = ground arith in
        let kept = keeps b ((eq_iff (id b) wanted).0 hit) in
        let self = (eq_iff (id (change b)) wanted).1 kept in
        (
          change b ∷ accounts,
          rw hit (refl),
          (
            rw self (ap (λ x. some (change x)) s),
            λ other apart.
                ground
                  (arith, eq_iff (id b) wanted, eq_iff (id b) other, eq_iff (id (change b)) other),
          ),
        )
    | inr miss ↦
        let (changed, e, (f, others)) =
          change_at_lem change wanted keeps accounts a (rw miss at h) in
        (b ∷ changed, rw (miss, e) refl, (rw miss f, λ other apart. rw (others other apart) refl))
  ]

  -- If the mode is one of the three and the account is stored, the change succeeds: the mode
  -- becomes the effective one of the named account, which keeps its tokens and, if it is paused,
  -- the preference that it had; the other accounts stay as they are.
  pub set_routing_mode_lem :
      (mode : RoutingMode) (accounts : List Account) (wanted : String) (a : Account)
      → is_routing_mode mode ≡ true
      → find accounts wanted ≡ some a
      → (changed : List Account) × (b : Account) × (set_routing_mode mode accounts wanted
          ≡ some changed)
        × ChangedTo accounts wanted b changed
        × ((effective_routing_mode b.state ≡ mode)
            × (b.state.routing_mode
                ≡ (if is_paused mode then normalized a.state.routing_mode else mode))
            × (b.state.id_token ≡ a.state.id_token)
            × (b.state.access_token ≡ a.state.access_token)
            × (b.state.refresh_token ≡ a.state.refresh_token)
            × (b.state.allow_credits ≡ a.state.allow_credits))
  unfolding set_routing_mode update_routing_mode account_from_state with_routing_mode id normalized
      effective_routing_mode
  set_routing_mode_lem mode accounts wanted a valid h =
      let change = rebuilt (λ s. with_routing_mode mode s) in
      let (changed, e, found) = change_at_lem change wanted (λ b k. k) accounts a h in
      (changed, change a, rw valid e, found, modes mode valid)
    where
      modes :
          (mode : RoutingMode)
          → is_routing_mode mode ≡ true
          → let b = rebuilt (λ s. with_routing_mode mode s) a in
            (effective_routing_mode b.state ≡ mode)
            × (b.state.routing_mode
                ≡ (if is_paused mode then normalized a.state.routing_mode else mode))
            × (b.state.id_token ≡ a.state.id_token)
            × (b.state.access_token ≡ a.state.access_token)
            × (b.state.refresh_token ≡ a.state.refresh_token)
            × (b.state.allow_credits ≡ a.state.allow_credits)
      modes normal v = (refl, refl, refl, refl, refl, refl)
      modes priority v = (refl, refl, refl, refl, refl, refl)
      modes paused v = (refl, refl, refl, refl, refl, refl)
      modes (unknown s) v = absurd (cc)

  -- If the account that credentials are of is stored, persisting them changes no other account: it
  -- ends with the later of the two times of refresh, is as it was if its own credentials are newer,
  -- has the new ones otherwise, and keeps its pause and its credit permission.
  pub persist_account_state_lem :
      (state : AccountState) (accounts : List Account) (a : Account)
      → find accounts (claims_from_token state.id_token).account_id ≡ some a
      → (changed : List Account) × (b : Account) × (persist_account_state state accounts
          ≡ some changed)
        × ChangedTo accounts (claims_from_token state.id_token).account_id b changed
        × ((b.state.last_refresh ≡ max a.state.last_refresh state.last_refresh)
            × (((state.last_refresh < a.state.last_refresh) × (b ≡ a))
                ⊎ ((b.state.id_token ≡ state.id_token)
                    × (b.state.access_token ≡ state.access_token)
                    × (b.state.refresh_token ≡ state.refresh_token)
                    × (b.state.reauth ≡ state.reauth)))
            × (b.state.paused ≡ a.state.paused)
            × (b.state.allow_credits ≡ a.state.allow_credits))
  unfolding persist_account_state account_from_state with_credentials id
  persist_account_state_lem state accounts a h =
      let wanted = (claims_from_token state.id_token).account_id in
      let (changed, e, found) = change_at_lem (or_current state) wanted keeps accounts a h in
      (changed, or_current state a, e, found, ground arith)
    where
      keeps :
          (b : Account)
          → id b ≡ (claims_from_token state.id_token).account_id
          → id (or_current state b) ≡ (claims_from_token state.id_token).account_id
      keeps b k = elim (Bool-cases (after b.state.last_refresh state.last_refresh)) [
        | inl newer ↦ rw newer k
        | inr older ↦ rw older refl
      ]
