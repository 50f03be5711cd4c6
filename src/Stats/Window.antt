-- ===== src/Stats/Window.antt =====
-- The rolling counter of internal/app/stats.go as the list of the events in its window.
use codex_balancer.Prelude.{
  ℕ, ◌+◌, ◌-◌, ◌*◌, ◌≤◌, ◌<◌, ◌==◌, ◌≡◌, refl, sym, ◌∙◌, ap, ltb, leb, ◌⊎◌, inl, inr, if◌then◌else◌,
  true, false, Bool-cases, not, ◌&&◌, List, [], ◌∷◌, ◌++◌, length, length-append, arith,
}
use codex_balancer.Account.Window.{Time, after, earlier}
use codex_balancer.Stats.Rolling.{RollingCounter, account_stats_window, drop, expired, recent, add}

-- The start of the window lies within the events.
abbrev pub IsCounter : RollingCounter → Type 0
IsCounter c = c.start ≤ length c.events

-- The events of the window, oldest first.
unfoldable pub window : RollingCounter → List Time
unfolding drop
window c = drop c.start c.events

abbrev pub cutoff : Time → Time
cutoff now = earlier now account_stats_window

-- What leaves a list of events when its oldest ones expire.
unfoldable pub unexpired : Time → List Time → List Time
unexpired limit [] = []
unexpired limit (at ∷ events) =
    let rest = unexpired limit events in if not (after at limit) then rest else at ∷ events

drop-length : (events : List Time) → drop (length events) events ≡ []
unfolding drop
drop-length [] = refl
drop-length (at ∷ events) = let h = drop-length events in ground arith

drop-0 : (events : List Time) → drop 0 events ≡ events
unfolding drop
drop-0 [] = refl
drop-0 (at ∷ events) = refl

drop-drop : (m n : ℕ) (events : List Time) → drop (m + n) events ≡ drop n (drop m events)
unfolding drop
drop-drop m n [] = refl
drop-drop m n (at ∷ events) = elim (Bool-cases (m == 0)) [
  | inl z ↦ rw z (let e : m + n ≡ n = ground arith in ap (λ k. drop k (at ∷ events)) e)
  | inr p ↦ rw p (
      let sum : (m + n == 0) ≡ false = ground arith in
      let pred : m + n - 1 ≡ (m - 1) + n = ground arith in
      rw sum (rw pred (drop-drop (m - 1) n events)))
]

drop-expired :
    (limit : Time) (events : List Time)
    → drop (expired limit events) events ≡ unexpired limit events
unfolding drop expired unexpired
drop-expired limit [] = refl
drop-expired limit (at ∷ events) = elim (Bool-cases (not (after at limit))) [
  | inl old ↦ rw old (
      let e : (expired limit events + 1 == 0) ≡ false = ground arith in
      let p : expired limit events + 1 - 1 ≡ expired limit events = omega arith in
      rw e (rw p (drop-expired limit events)))
  | inr new ↦ rw new refl
]

expired-bound : (limit : Time) (events : List Time) → expired limit events ≤ length events
unfolding expired
expired-bound limit [] = omega arith
expired-bound limit (at ∷ events) = let h = expired-bound limit events in ground arith

length-drop : (n : ℕ) (events : List Time) → length (drop n events) ≡ length events - n
unfolding drop
length-drop n [] = omega arith
length-drop n (at ∷ events) = let h = length-drop (n - 1) events in ground arith

pub unexpired-append :
    (limit : Time) (events : List Time) (at : Time)
    → ltb limit at ≡ true
    → unexpired limit (events ++ at ∷ []) ≡ unexpired limit events ++ at ∷ []
unfolding unexpired
unexpired-append limit [] at new = ground arith
unexpired-append limit (e ∷ events) at new =
    let h = unexpired-append limit events at new in ground arith

drop-append :
    (n : ℕ) (events : List Time) (at : Time)
    → n ≤ length events
    → drop n (events ++ at ∷ []) ≡ drop n events ++ at ∷ []
unfolding drop
drop-append n [] at le = ground arith
drop-append n (e ∷ events) at le = elim (Bool-cases (n == 0)) [
  | inl z ↦ rw z refl
  | inr p ↦ rw p (drop-append (n - 1) events at (ground arith))
]

-- What `recent` returns and what it leaves: the unexpired events of the window, whether or not the
-- expired ones are cut off the list of events.
pub recent-window :
    (c : RollingCounter) (now : Time)
    → IsCounter c
    → let (left, events) = recent c now in
      let live = unexpired (cutoff now) (window c) in
      (events ≡ live) × (window left ≡ live) × IsCounter left
unfolding recent window
recent-window c now le =
    let gone = expired (cutoff now) (drop c.start c.events) in
    let start = c.start + gone in
    let live : drop start c.events ≡ unexpired (cutoff now) (window c) =
      drop-drop c.start gone c.events ∙ drop-expired (cutoff now) (drop c.start c.events) in
    let bound = expired-bound (cutoff now) (drop c.start c.events) in
    let len = length-drop c.start c.events in
    elim (Bool-cases (start == length c.events)) [
      | inl all ↦
          let whole : start ≡ length c.events = ground arith in
          let none_left : drop start c.events ≡ [] =
            ap (λ k. drop k c.events) whole ∙ drop-length c.events in
          rw all (sym none_left ∙ live, sym none_left ∙ live, omega arith)
      | inr some_left ↦
          rw some_left (elim (Bool-cases (leb 1024 start && leb (length c.events) (start * 2))) [
            | inl cut ↦ rw cut (live, drop-0 (drop start c.events) ∙ live, omega arith)
            | inr kept ↦ rw kept (live, live, ground arith)
          ])
    ]

-- The expired events that are kept all the same are fewer than 1024, or than the ones in the window.
pub recent-size :
    (c : RollingCounter) (now : Time)
    → let left = (recent c now).0 in (left.start < 1024) ⊎ (left.start < length (window left))
unfolding recent window
recent-size c now =
    let start = c.start + expired (cutoff now) (drop c.start c.events) in
    let len = length-drop start c.events in
    elim (Bool-cases (start == length c.events)) [
      | inl all ↦ rw all (inl (omega arith))
      | inr some_left ↦
          rw some_left (elim (Bool-cases (leb 1024 start && leb (length c.events) (start * 2))) [
            | inl cut ↦ rw cut (inl (omega arith))
            | inr kept ↦ rw kept (ground arith)
          ])
    ]

pub add-window :
    (c : RollingCounter) (at : Time)
    → IsCounter c
    → (window (add c at) ≡ unexpired (cutoff at) (window c ++ at ∷ [])) × IsCounter (add c at)
unfolding add window
add-window c at le =
    let longer = record c { events = c.events ++ at ∷ [] } in
    let len = length-append c.events (at ∷ []) in
    let (_, left, counter) = recent-window longer at (omega (arith, len, le)) in
    (left ∙ ap (unexpired (cutoff at)) (drop-append c.start c.events at le), counter)
