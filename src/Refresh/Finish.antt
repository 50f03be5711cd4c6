-- ===== src/Refresh/Finish.antt =====
-- `finishRefresh` of internal/app/account.go: what an exchange of the refresh token leaves in the
-- account. An error is the list of the texts that `errors.Join` keeps; the empty list is nil.
use codex_balancer.Prelude.{
  ◌≡◌, ◌≢◌, ◌⊎◌, inl, inr, refl, if◌then◌else◌, Bool, true, false, Bool-cases, not, ◌&&◌, Option,
  none, some, List, [], ◌∷◌, ◌++◌, String, str_eq, eq_iff, arith,
}
use codex_balancer.Account.Window.{Time}
use codex_balancer.Account.State.{Account, AccountState}
use codex_balancer.Account.Adoption.{credentials}

pub record TokenResponse : Type 0 where
  pub id_token : String
  pub access_token : String
  pub refresh_token : String

-- `persist`: the state that it returns, and its error.
abbrev pub Persist : Type 0
Persist = AccountState → AccountState × List String

abbrev or_old : String → String → String
or_old new old = if str_eq new "" then old else new

unfoldable pub exchanged : AccountState → TokenResponse → Time → AccountState
exchanged state tokens now = record state {
  access_token = or_old tokens.access_token state.access_token;
  refresh_token = or_old tokens.refresh_token state.refresh_token;
  id_token = or_old tokens.id_token state.id_token;
  last_refresh = now;
  reauth = "";
}

abbrev is_nil : List String → Bool
is_nil [] = true
is_nil (e ∷ errs) = false

-- The next state, the error, and that of the completion.
abbrev Completed : Type 0
Completed = AccountState × List String × List String

-- What `persist` returns is taken over even if it fails.
abbrev persist_success : Option Persist → AccountState → Completed
persist_success none next = (next, [], [])
persist_success (some persist) next = let (kept, err) = persist next in (kept, err, err)

abbrev persist_failure : Option Persist → AccountState → List String → Completed
persist_failure none next err = (next, err, [])
persist_failure (some persist) next err =
    let (kept, persist_err) = persist next in
    if is_nil persist_err then (kept, err, []) else (next, err ++ persist_err, persist_err)

-- What is persisted before the account is locked again. `text` is `err.Error()`.
unfoldable pub complete :
    (List String → String)
    → Option Persist
    → AccountState
    → TokenResponse
    → Bool
    → List String
    → Time
    → Completed
unfolding exchanged
complete text persist state tokens permanent err now =
    if is_nil err
    then persist_success persist (exchanged state tokens now)
    else if permanent
    then persist_failure persist (record state { reauth = text err }) err
    else (state, err, [])

-- What is published in the account, which may have other credentials by now.
unfoldable pub publish :
    Account → AccountState → Bool → Completed → Account × List String × List String
publish a state permanent (next, err, completion_err) =
    let superseded =
      not (str_eq a.state.refresh_token state.refresh_token)
      && not (str_eq a.state.refresh_token next.refresh_token) in
    let published =
      if is_nil err
      then record a {
        state = next;
        rejected_access_token =
            if str_eq a.state.access_token next.access_token then a.rejected_access_token else "";
      }
      else if permanent
      then record a { state = record a.state { reauth = next.reauth } }
      else a in
    if superseded then (a, [], []) else (published, err, completion_err)

unfoldable pub finish_refresh :
    (List String → String)
    → Option Persist
    → Account
    → AccountState
    → TokenResponse
    → Bool
    → List String
    → Time
    → Account × List String × List String
unfolding complete publish
finish_refresh text persist a state tokens permanent err now =
    publish a state permanent (complete text persist state tokens permanent err now)

-- An account that got another refresh token than the one the exchange began with keeps it, whatever the
-- store answers; and unless the state that the exchange would publish (the exchanged one, or the one
-- that the store returned) has the account's very token, nothing of the account changes and no error is
-- reported, neither to the caller nor as that of the completion.
pub finish_refresh-superseded :
    (text : List String → String) (persist : Option Persist) (a : Account) (state : AccountState)
    (tokens : TokenResponse) (permanent : Bool) (err : List String) (now : Time)
    → a.state.refresh_token ≢ state.refresh_token
    → let (next, _, _) = complete text persist state tokens permanent err now in
      let (b, failure, completion) = finish_refresh text persist a state tokens permanent err now in
      (b.state.refresh_token ≡ a.state.refresh_token)
      × (((b ≡ a) × (failure ≡ []) × (completion ≡ []))
          ⊎ (a.state.refresh_token ≡ next.refresh_token))
unfolding finish_refresh publish
finish_refresh-superseded text persist a state tokens permanent err now other =
    let c = complete text persist state tokens permanent err now in
    let differs : str_eq a.state.refresh_token state.refresh_token ≡ false =
      ground (arith, eq_iff a.state.refresh_token state.refresh_token) in
    elim (Bool-cases (str_eq a.state.refresh_token c.0.refresh_token)) [
      | inl e ↦
          let same = (eq_iff a.state.refresh_token c.0.refresh_token).0 e in
          rw differs (rw e (ground (arith, same)))
      | inr e ↦ rw differs (rw e (refl, inl (refl, refl, refl)))
    ]

nil_lem : (errs : List String) → is_nil errs ≡ true → errs ≡ []
nil_lem [] h = refl
nil_lem (e ∷ errs) h = absurd (ground arith)

cons_lem : (errs : List String) → is_nil errs ≡ false → errs ≢ []
cons_lem [] h = absurd (ground arith)
cons_lem (e ∷ errs) h = λ p. absurd (cc)

-- Without an error, there is none of the completion.
complete_errors :
    (text : List String → String) (persist : Option Persist) (state : AccountState)
    (tokens : TokenResponse) (permanent : Bool) (err : List String) (now : Time)
    → let c = complete text persist state tokens permanent err now in is_nil c.1 ≡ true → c.2 ≡ []
unfolding complete
complete_errors text none state tokens permanent [] now h = refl
complete_errors text (some persist) state tokens permanent [] now h = nil_lem _ h
complete_errors text none state tokens true (e ∷ err) now h = refl
complete_errors text (some persist) state tokens true (e ∷ err) now h =
    let next = record state { reauth = text (e ∷ err) } in
    elim (Bool-cases (is_nil (persist next).1)) [
      | inl stored ↦ rw stored refl
      | inr refused ↦ let g : false ≡ true = rw refused at h in absurd (ground arith)
    ]
complete_errors text persist state tokens false (e ∷ err) now h = refl

failed_publish :
    (a : Account) (reauth : String) (permanent : Bool)
    → let b = if permanent then record a { state = record a.state { reauth = reauth } } else a in
      credentials b.state ≡ credentials a.state
failed_publish a reauth true = refl
failed_publish a reauth false = refl

publish_failure :
    (a : Account) (state : AccountState) (permanent : Bool) (c : Completed)
    → (is_nil c.1 ≡ true → c.2 ≡ [])
    → let (b, failure, completion) = publish a state permanent c in
      ((failure ≡ []) × (completion ≡ []))
      ⊎ ((failure ≢ []) × (credentials b.state ≡ credentials a.state))
unfolding publish
publish_failure a state permanent c clean =
    let superseded =
      not (str_eq a.state.refresh_token state.refresh_token)
      && not (str_eq a.state.refresh_token c.0.refresh_token) in
    elim (Bool-cases superseded) [
      | inl other ↦ rw other (inl (refl, refl))
      | inr own ↦ rw own (elim (Bool-cases (is_nil c.1)) [
        | inl went ↦ inl (nil_lem c.1 went, clean went)
        | inr failed ↦ rw failed (inr (cons_lem c.1 failed, failed_publish a c.0.reauth permanent))
      ])
    ]

-- A refresh that reports an error, of the exchange or of the store, leaves the account's tokens and the
-- time of their refresh as they were, whatever the store returned; and one that reports none has none
-- of the completion either.
pub finish_refresh_failure :
    (text : List String → String) (persist : Option Persist) (a : Account) (state : AccountState)
    (tokens : TokenResponse) (permanent : Bool) (err : List String) (now : Time)
    → let (b, failure, completion) = finish_refresh text persist a state tokens permanent err now in
      ((failure ≡ []) × (completion ≡ []))
      ⊎ ((failure ≢ []) × (credentials b.state ≡ credentials a.state))
unfolding finish_refresh
finish_refresh_failure text persist a state tokens permanent err now =
    publish_failure a state permanent (complete text persist state tokens permanent err now)
      (complete_errors text persist state tokens permanent err now)
