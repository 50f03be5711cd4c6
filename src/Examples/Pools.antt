-- ===== src/Examples/Pools.antt =====
-- The theorems on the pool and its store, at concrete accounts; a token's claims name the account by
-- the token's middle segment.
use codex_balancer.Prelude.{ℕ, ◌≡◌, ◌⊎◌, ◌<◌, ◌*◌, max, refl, some, [], ◌∷◌, List, pos}
use codex_balancer.Account.Window.{hour}
use codex_balancer.Account.Mode.{priority}
use codex_balancer.Account.State.{
  Tokens, Account, AccountState, claims_from_token, effective_routing_mode,
}
use codex_balancer.Pool.Changes.{find, persist_account_state}
use codex_balancer.Pool.Changed.{ChangedTo, persist_account_state_lem}
use codex_balancer.Pool.Reconcile.{Object, reconcile}
use codex_balancer.Pool.Reconciled.{ids, reconcile-ids}
use codex_balancer.Examples.Data.{stored, account}

instance abbrev named : Tokens
named = record {
  decode_claims = λ payload. record { email = ""; account_id = payload; plan = "pro" };
  decode_expiry = λ payload. pos 0;
  digest = λ token. token;
}

abbrev pub alice_state : AccountState
alice_state = record stored { id_token = "x.alice.y"; routing_mode = priority }

abbrev pub alice : Account
alice = record account { state = alice_state }

abbrev bob : Account
bob = record account { state = record stored { id_token = "x.bob.y" } }

finds_bob : find (alice ∷ bob ∷ []) "bob" ≡ some bob
unfolding find codex_balancer.Account.State.id claims_from_token
    codex_balancer.Account.State.jwt_payload
finds_bob = refl

finds_alice :
    find (alice ∷ bob ∷ []) (claims_from_token alice_state.id_token).account_id ≡ some alice
unfolding find codex_balancer.Account.State.id claims_from_token
    codex_balancer.Account.State.jwt_payload
finds_alice = refl

abbrev renewed : AccountState
renewed = record alice_state { access_token = "new"; last_refresh = 950 * hour }

persist_account_state_lem_example :
    (changed : List Account) × (b : Account) × (persist_account_state renewed (alice ∷ bob ∷ [])
      ≡ some changed)
    × ChangedTo (alice ∷ bob ∷ []) (claims_from_token renewed.id_token).account_id b changed
    × ((b.state.last_refresh ≡ max alice.state.last_refresh renewed.last_refresh)
        × (((renewed.last_refresh < alice.state.last_refresh) × (b ≡ alice))
            ⊎ ((b.state.id_token ≡ renewed.id_token)
                × (b.state.access_token ≡ renewed.access_token)
                × (b.state.refresh_token ≡ renewed.refresh_token)
                × (b.state.reauth ≡ renewed.reauth)))
        × (b.state.paused ≡ alice.state.paused)
        × (b.state.allow_credits ≡ alice.state.allow_credits))
persist_account_state_lem_example =
    persist_account_state_lem renewed (alice ∷ bob ∷ []) alice finds_alice

abbrev object : ℕ → Account → Object
object address a = record { address = address; account = a }

-- The pool has both accounts; the store has only one of them, read anew.
reconcile-ids_example :
    ids (reconcile (object 1 alice ∷ object 2 bob ∷ []) (object 3 bob ∷ [])).0
    ≡ ids (object 3 bob ∷ [])
reconcile-ids_example = reconcile-ids (object 1 alice ∷ object 2 bob ∷ []) (object 3 bob ∷ [])
