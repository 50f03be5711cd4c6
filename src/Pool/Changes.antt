-- ===== src/Pool/Changes.antt =====
-- The changes that the pool makes of the stored accounts: internal/app/pool.go. A change is the
-- function that the store runs in its transaction, which is not modelled; `none` is its error, on
-- which the transaction leaves the accounts as they were.
use codex_balancer.Prelude.{
  if◌then◌else◌, Bool, true, false, not, Option, none, some, List, [], ◌∷◌, ◌++◌, String, str_eq,
}
use codex_balancer.Account.Window.{after}
use codex_balancer.Account.Mode.{RoutingMode, normal, priority, paused, unknown, is_paused, next}
use codex_balancer.Account.State.{
  Tokens, Account, AccountState, account_from_state, claims_from_token, effective_routing_mode, id,
}

-- The routing modes that `setRoutingMode` takes.
abbrev pub is_routing_mode : RoutingMode → Bool
is_routing_mode normal = true
is_routing_mode priority = true
is_routing_mode paused = true
is_routing_mode (unknown s) = false

-- `state.RoutingMode` and `state.Paused` after `updateRoutingMode`.
unfoldable pub with_routing_mode : RoutingMode → AccountState → AccountState
with_routing_mode mode s = record s {
  paused = is_paused mode;
  routing_mode = if is_paused mode then s.routing_mode else mode;
}

-- The state that `persistAccountState` keeps: the stored one if it is newer, and otherwise the stored
-- one with new credentials.
unfoldable pub with_credentials : AccountState → AccountState → AccountState
with_credentials state current =
    if after current.last_refresh state.last_refresh then current else record current {
      id_token = state.id_token;
      access_token = state.access_token;
      refresh_token = state.refresh_token;
      last_refresh = state.last_refresh;
      reauth = state.reauth;
    }

module _ ⦃tokens : Tokens⦄ where
  -- `accounts[indexOf(accounts, id)]`.
  unfoldable pub find : List Account → String → Option Account
  find [] wanted = none
  find (a ∷ accounts) wanted = if str_eq (id a) wanted then some a else find accounts wanted

  abbrev pub prepend : Account → Option (List Account) → Option (List Account)
  prepend a none = none
  prepend a (some accounts) = some (a ∷ accounts)

  -- `accounts[i] = change(accounts[i])` at the first account with the id, an error without one.
  unfoldable pub change_at : (Account → Account) → List Account → String → Option (List Account)
  change_at change [] wanted = none
  change_at change (a ∷ accounts) wanted =
      let rest = change_at change accounts wanted in
      if str_eq (id a) wanted then some (change a ∷ accounts) else prepend a rest

  abbrev or_append : Account → List Account → Option (List Account) → List Account
  or_append a accounts none = accounts ++ a ∷ []
  or_append a accounts (some replaced) = replaced

  unfoldable pub add : Account → List Account → Option (List Account)
  unfolding change_at
  add a accounts =
      if str_eq (id a) ""
      then none
      else some (or_append a accounts (change_at (λ _. a) accounts (id a)))

  unfoldable pub remove : List Account → String → Option (List Account)
  remove [] wanted = none
  remove (a ∷ accounts) wanted =
      let rest = remove accounts wanted in
      if str_eq (id a) wanted then some accounts else prepend a rest

  -- The account built anew from a changed state.
  abbrev pub rebuilt : (AccountState → AccountState) → Account → Account
  rebuilt change a = account_from_state (change a.state)

  unfoldable pub update_pause : (Bool → Bool) → List Account → String → Option (List Account)
  unfolding change_at account_from_state
  update_pause update = change_at (rebuilt (λ s. record s { paused = update s.paused }))

  unfoldable pub toggle_pause : List Account → String → Option (List Account)
  unfolding update_pause
  toggle_pause = update_pause not

  unfoldable pub set_paused : Bool → List Account → String → Option (List Account)
  unfolding update_pause
  set_paused value = update_pause (λ _. value)

  unfoldable pub update_routing_mode :
      (RoutingMode → RoutingMode) → List Account → String → Option (List Account)
  unfolding change_at account_from_state with_routing_mode effective_routing_mode
  update_routing_mode update =
      change_at (rebuilt (λ s. with_routing_mode (update (effective_routing_mode s)) s))

  unfoldable pub cycle_routing_mode : List Account → String → Option (List Account)
  unfolding update_routing_mode next
  cycle_routing_mode = update_routing_mode next

  unfoldable pub set_routing_mode : RoutingMode → List Account → String → Option (List Account)
  unfolding update_routing_mode
  set_routing_mode mode accounts wanted =
      if is_routing_mode mode then update_routing_mode (λ _. mode) accounts wanted else none

  unfoldable pub set_allow_credits : Bool → List Account → String → Option (List Account)
  unfolding change_at account_from_state
  set_allow_credits allow = change_at (rebuilt (λ s. record s { allow_credits = allow }))

  abbrev pub or_current : AccountState → Account → Account
  or_current state a =
      if after a.state.last_refresh state.last_refresh
      then a
      else account_from_state (with_credentials state a.state)

  unfoldable pub persist_account_state : AccountState → List Account → Option (List Account)
  unfolding change_at account_from_state with_credentials
  persist_account_state state accounts =
      change_at (or_current state) accounts (claims_from_token state.id_token).account_id
