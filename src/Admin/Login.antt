-- ===== src/Admin/Login.antt =====
-- `adminAuth.allowLogin` of internal/app/admin_auth.go: ten attempts in a window of a minute.
use codex_balancer.Prelude.{
  ℕ, ◌+◌, ◌-◌, ◌≤◌, ◌<◌, ◌≡◌, leb, if◌then◌else◌, Bool, true, false, Bool-cases, inl, inr, List, [],
  ◌∷◌, arith,
}
use codex_balancer.Account.Window.{Time, minute}

pub record AdminAuth : Type 0 where
  pub login_window : Time
  pub login_attempts : ℕ

-- `now.Sub(window)` is less than a minute where the window is later.
unfoldable pub renewed : Time → AdminAuth → AdminAuth
renewed now a =
    if leb minute (now - a.login_window)
    then record { login_window = now; login_attempts = 0 }
    else a

unfoldable pub allow_login : Time → AdminAuth → AdminAuth × Bool
unfolding renewed
allow_login now a =
    let b = renewed now a in
    if leb 10 b.login_attempts
    then (b, false)
    else (record b { login_attempts = b.login_attempts + 1 }, true)

-- The number of the attempts that are allowed, one after the other.
unfoldable pub allowed_logins : List Time → AdminAuth → ℕ
unfolding allow_login
allowed_logins [] a = 0
allowed_logins (now ∷ times) a =
    let (b, allowed) = allow_login now a in
    let rest = allowed_logins times b in if allowed then rest + 1 else rest

-- Attempts from one time on, each before another one.
abbrev pub IsWithin : Time → Time → List Time → Type 0
IsWithin from end [] = Unit
IsWithin from end (now ∷ times) = (from ≤ now) × (now < end) × IsWithin now end times

-- Before the window ends, what is left of its ten attempts is allowed.
one_window :
    (times : List Time) (a : AdminAuth) (from end : Time)
    → a.login_window ≤ from
    → end ≤ a.login_window + minute
    → a.login_attempts ≤ 10
    → IsWithin from end times
    → allowed_logins times a + a.login_attempts ≤ 10
unfolding allowed_logins allow_login renewed
one_window [] a from end le short few h = omega arith
one_window (now ∷ times) a from end le short few (low, high, h) =
    let stays : leb minute (now - a.login_window) ≡ false = ground arith in
    rw stays (elim (Bool-cases (leb 10 a.login_attempts)) [
      | inl full ↦ rw full (one_window times a now end (omega arith) short few h)
      | inr room ↦ rw room (
          let next = record a { login_attempts = a.login_attempts + 1 } in
          let ih = one_window times next now end (omega arith) short (ground arith) h in
          omega (arith, ih))
    ])

two_windows :
    (times : List Time) (a : AdminAuth) (first from : Time)
    → first ≤ from
    → a.login_attempts ≤ 10
    → IsWithin from (first + minute) times
    → allowed_logins times a + a.login_attempts ≤ 20
unfolding allowed_logins allow_login renewed
two_windows [] a first from le few h = omega arith
two_windows (now ∷ times) a first from le few (low, high, h) =
    elim (Bool-cases (leb minute (now - a.login_window))) [
      | inl ended ↦ rw ended (
          let next : AdminAuth = record { login_window = now; login_attempts = 1 } in
          let rest =
            one_window times next now (first + minute) (omega arith) (omega arith) (omega arith)
              h in
          omega (arith, rest, few))
      | inr stays ↦ rw stays (elim (Bool-cases (leb 10 a.login_attempts)) [
        | inl full ↦ rw full (two_windows times a first now (omega arith) few h)
        | inr room ↦ rw room (
            let next = record a { login_attempts = a.login_attempts + 1 } in
            let rest = two_windows times next first now (omega arith) (ground arith) h in
            omega (arith, rest))
      ])
    ]

-- In any minute at most twenty attempts are allowed, whatever was attempted before: those that are
-- left of the window that the minute begins in, and ten of the next one.
pub allowed_logins-bound :
    (times : List Time) (a : AdminAuth) (from : Time)
    → a.login_attempts ≤ 10
    → IsWithin from (from + minute) times
    → allowed_logins times a + a.login_attempts ≤ 20
allowed_logins-bound times a from few h = two_windows times a from from (omega arith) few h
