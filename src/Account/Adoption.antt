-- ===== src/Account/Adoption.antt =====
-- What a usage poll and a reload from the store leave of an account.
use codex_balancer.Prelude.{
  ◌≡◌, refl, ap, ◌∙◌, true, false, Bool-cases, inl, inr, String, ◌<◌, arith, if◌then◌else◌,
}
use codex_balancer.Account.Window.{Time, Window, before}
use codex_balancer.Account.Mode.{normalized}
use codex_balancer.Account.State.{Account, AccountState, apply_persisted, apply_credentials}
use codex_balancer.Account.Usage.{newer}

-- The three tokens and the time they were refreshed.
abbrev pub credentials : AccountState → String × String × String × Time
credentials s = (s.id_token, s.access_token, s.refresh_token, s.last_refresh)

-- Whether an account takes the credentials of a state depends on the times alone.
apply_persisted_choice :
    (a : Account) (x : AccountState)
    → credentials (apply_persisted a x).0.state
      ≡ (if before x.last_refresh a.state.last_refresh then credentials a.state else credentials x)
unfolding apply_persisted apply_credentials
apply_persisted_choice a x = elim (Bool-cases (before x.last_refresh a.state.last_refresh)) [
  | inl older ↦ rw older refl
  | inr newer ↦ rw newer refl
]

-- The credentials, as a choice between an account's `c` and those of two states in turn.
older_first :
    (c p q : String × String × String × Time)
    → p.3 < q.3
    → (let d = if before p.3 c.3 then c else p in if before q.3 d.3 then d else q)
      ≡ (if before q.3 c.3 then c else q)
older_first c p q h = elim (Bool-cases (before p.3 c.3)) [
  | inl e ↦ rw e refl
  | inr e ↦
      let first : before q.3 p.3 ≡ false = ground arith in
      let own : before q.3 c.3 ≡ false = ground arith in rw (e, first, own) refl
]

older_last :
    (c p q : String × String × String × Time)
    → p.3 < q.3
    → (let d = if before q.3 c.3 then c else q in if before p.3 d.3 then d else p)
      ≡ (if before q.3 c.3 then c else q)
older_last c p q h = elim (Bool-cases (before q.3 c.3)) [
  | inl e ↦ let own : before p.3 c.3 ≡ true = ground arith in rw (e, own) refl
  | inr e ↦ let last : before p.3 q.3 ≡ true = ground arith in rw (e, last) refl
]

apply_persisted_twice :
    (a : Account) (x y : AccountState)
    → credentials (apply_persisted (apply_persisted a x).0 y).0.state ≡ (
        let c =
          if before x.last_refresh a.state.last_refresh
          then credentials a.state
          else credentials x in
        if before y.last_refresh c.3 then c else credentials y)
apply_persisted_twice a x y =
    apply_persisted_choice (apply_persisted a x).0 y
    ∙ ap
        (λ (c : String × String × String × Time).
          if before y.last_refresh c.3 then c else credentials y)
        (apply_persisted_choice a x)

-- Of two states of the store, the one with the older credentials makes no difference to an account's
-- credentials, whether it is applied before the newer one or after it; the credentials are those of the
-- newer state, or the account's own if these are newer still, and never a mix of two; and the pause,
-- the mode and the credit permission are those of the state applied last.
pub apply_persisted_order :
    (a : Account) (x y : AccountState)
    → x.last_refresh < y.last_refresh
    → let xy = (apply_persisted (apply_persisted a x).0 y).0.state in
      let yx = (apply_persisted (apply_persisted a y).0 x).0.state in
      let newest =
        if before y.last_refresh a.state.last_refresh then credentials a.state else credentials y in
      (credentials xy ≡ newest)
      × (credentials yx ≡ newest)
      × ((xy.paused ≡ y.paused) × (yx.paused ≡ x.paused))
      × ((xy.routing_mode ≡ normalized y.routing_mode)
          × (yx.routing_mode ≡ normalized x.routing_mode))
      × ((xy.allow_credits ≡ y.allow_credits) × (yx.allow_credits ≡ x.allow_credits))
unfolding apply_persisted
apply_persisted_order a x y older = (
  apply_persisted_twice a x y
      ∙ older_first (credentials a.state) (credentials x) (credentials y) older,
  apply_persisted_twice a y x
      ∙ older_last (credentials a.state) (credentials x) (credentials y) older,
  (refl, refl),
  (refl, refl),
  (refl, refl),
)
