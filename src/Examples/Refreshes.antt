-- ===== src/Examples/Refreshes.antt =====
-- The theorems on the refresh of tokens, at one account and two callers.
use codex_balancer.Prelude.{
  ◌≡◌, ◌≢◌, ◌⊎◌, ◌≤◌, true, false, Option, some, List, [], ◌∷◌, String, eq_iff, arith,
}
use codex_balancer.Account.State.{AccountState}
use codex_balancer.Account.Adoption.{credentials}
use codex_balancer.Refresh.Finish.{
  TokenResponse, complete, finish_refresh, finish_refresh-superseded, finish_refresh_failure,
  Persist,
}
use codex_balancer.Refresh.Flight.{enter, leave}
use codex_balancer.Refresh.Callers.{
  System, idle, enters, fresh, later, entering, leaving, remove_one, callers_of,
}
use codex_balancer.Refresh.Invariant.{SystemInv, Reach-SystemInv}
use codex_balancer.Examples.Data.{now}
use codex_balancer.Examples.Pools.{alice, alice_state}

abbrev text : List String → String
text [] = ""
text (e ∷ errs) = e

-- A store that cannot write, and returns no state.
abbrev failing : Option Persist
failing = some (λ s. (record s { access_token = ""; refresh_token = "" }, "disk full" ∷ []))

abbrev fresh_tokens : TokenResponse
fresh_tokens = record { id_token = ""; access_token = "access-2"; refresh_token = "refresh-2" }

-- The state with which the exchange began, before alice signed in again.
abbrev started_with : AccountState
started_with = record alice_state { refresh_token = "refresh-0" }

other_token : alice.state.refresh_token ≢ started_with.refresh_token
other_token e =
    let h = (eq_iff alice.state.refresh_token started_with.refresh_token).1 e in
    absurd (ground arith)

finish_refresh-superseded_example :
    let (next, _, _) = complete text failing started_with fresh_tokens false [] now in
    let (b, failure, completion) =
      finish_refresh text failing alice started_with fresh_tokens false [] now in
    (b.state.refresh_token ≡ alice.state.refresh_token)
    × (((b ≡ alice) × (failure ≡ []) × (completion ≡ []))
        ⊎ (alice.state.refresh_token ≡ next.refresh_token))
finish_refresh-superseded_example =
    finish_refresh-superseded text failing alice started_with fresh_tokens false [] now other_token

-- The store fails after an exchange that went well, with the token that alice still has.
finish_refresh_failure_example :
    let (b, failure, completion) =
      finish_refresh text failing alice alice_state fresh_tokens false [] now in
    ((failure ≡ []) × (completion ≡ []))
    ⊎ ((failure ≢ []) × (credentials b.state ≡ credentials alice.state))
finish_refresh_failure_example =
    finish_refresh_failure text failing alice alice_state fresh_tokens false [] now

-- Two callers share one exchange.
abbrev shared : System
shared =
    enters (enters idle (enter true true idle.flight))
      (enter true true (enters idle (enter true true idle.flight)).flight)

two_wait : 1 ≤ callers_of 0 shared.waiting
unfolding callers_of enter
two_wait = omega arith

Reach-SystemInv_example :
    SystemInv
      (record shared { flight = leave 0 shared.flight; waiting = remove_one 0 shared.waiting })
Reach-SystemInv_example =
    Reach-SystemInv
      (later (later (later fresh (entering true true)) (entering true true)) (leaving 0 two_wait))
