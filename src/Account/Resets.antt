-- ===== src/Account/Resets.antt =====
-- Which banked reset is the next one.
use mathlib.Core.List.{Memᴰ}
use codex_balancer.Prelude.{
  ◌≡◌, ℕ, inl, inr, Bool, true, false, none, some, List, From, scan-Outcome, scan-none, All,
  All-mem, arith,
}
use codex_balancer.Account.Window.{Time}
use codex_balancer.Account.Quota.{
  ResetCredit, usable, reset_credit_expires_before, next_reset_credit,
}

expires_before_irrefl : (c : ResetCredit) → reset_credit_expires_before c c ≡ false
expires_before_irrefl c = ground arith

expires_before_trans :
    (a b c : ResetCredit)
    → reset_credit_expires_before a b ≡ true
    → reset_credit_expires_before b c ≡ true
    → reset_credit_expires_before a c ≡ true
expires_before_trans a b c p q = ground arith

listed_of :
    (credits : List ResetCredit) (usable' : ResetCredit → Bool) (c : ResetCredit)
    → From usable' none credits c
    → Memᴰ c credits × (usable' c ≡ true)
listed_of credits usable' c (inl e) = absurd (cc)
listed_of credits usable' c (inr m) = m

-- The next reset is a listed one that is usable, and no usable listed one expires before it.
pub next_reset_credit_sound :
    (credits : List ResetCredit) (now : Time) (lead : ℕ) (c other : ResetCredit)
    → next_reset_credit credits now lead ≡ some c
    → Memᴰ other credits
    → usable now lead other ≡ true
    → Memᴰ c credits × (usable now lead c ≡ true) × (reset_credit_expires_before other c ≡ false)
unfolding next_reset_credit
next_reset_credit_sound credits now lead c other h m u =
    let (from, _, unbeaten) =
      scan-Outcome reset_credit_expires_before expires_before_irrefl expires_before_trans
        (usable now lead) none credits c h in
    let (listed, fit) = listed_of credits (usable now lead) c from in
    (
      listed,
      fit,
      All-mem (λ d. usable now lead d ≡ true → reset_credit_expires_before d c ≡ false) other
          credits unbeaten m u,
    )

-- There is no next reset only if no listed one is usable.
pub next_reset_credit-none :
    (credits : List ResetCredit) (now : Time) (lead : ℕ)
    → next_reset_credit credits now lead ≡ none
    → All (λ d. usable now lead d ≡ false) credits
unfolding next_reset_credit
next_reset_credit-none credits now lead =
    scan-none reset_credit_expires_before (usable now lead) credits
