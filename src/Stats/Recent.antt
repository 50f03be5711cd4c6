-- ===== src/Stats/Recent.antt =====
-- What the rolling counter of internal/app/stats.go counts, when the events come in order of time.
use codex_balancer.Prelude.{
  ◌≤◌, ◌<◌, ◌≡◌, refl, sym, ◌∙◌, ap, ◌⊎◌, inl, inr, true, false, Bool-cases, List, [], ◌∷◌, ◌++◌,
  length, All, subst, keep, arith,
}
use codex_balancer.Account.Window.{Time, after}
use codex_balancer.Stats.Rolling.{RollingCounter, no_events, recent, add}
use codex_balancer.Stats.Window.{
  IsCounter, window, cutoff, unexpired, recent-window, recent-size, add-window,
}

-- Times in order, none before a first one.
abbrev pub IsOrdered : Time → List Time → Type 0
IsOrdered from [] = Unit
IsOrdered from (at ∷ events) = (from ≤ at) × IsOrdered at events

-- The events of the list that are in the window of a day before a time.
abbrev pub within_day : Time → List Time → List Time
within_day now = keep (λ at. after at (cutoff now))

-- Where the oldest event is within the day, all are.
all_within :
    (now at : Time) (events : List Time)
    → after at (cutoff now) ≡ true
    → IsOrdered at events
    → within_day now events ≡ events
all_within now at [] new h = refl
all_within now at (e ∷ events) new (le, h) =
    let newer : after e (cutoff now) ≡ true = ground arith in
    rw newer (ap (λ es. e ∷ es) (all_within now e events newer h))

unexpired-ordered :
    (now from : Time) (events : List Time)
    → IsOrdered from events
    → unexpired (cutoff now) events ≡ within_day now events
unfolding unexpired
unexpired-ordered now from [] h = refl
unexpired-ordered now from (at ∷ events) (_, h) = elim (Bool-cases (after at (cutoff now))) [
  | inl new ↦ rw new (ap (λ es. at ∷ es) (sym (all_within now at events new h)))
  | inr old ↦ rw old (unexpired-ordered now at events h)
]

-- An earlier cutoff takes nothing away that a later one keeps.
within_day-unexpired :
    (now at : Time) (events : List Time)
    → at ≤ now
    → within_day now (unexpired (cutoff at) events) ≡ within_day now events
unfolding unexpired
within_day-unexpired now at [] le = refl
within_day-unexpired now at (e ∷ events) le = elim (Bool-cases (after e (cutoff at))) [
  | inl new ↦ rw new refl
  | inr old ↦ rw old (
      let older : after e (cutoff now) ≡ false = ground arith in
      rw older (within_day-unexpired now at events le))
]

within_day-append :
    (now : Time) (xs ys : List Time)
    → within_day now (xs ++ ys) ≡ within_day now xs ++ within_day now ys
within_day-append now [] ys = refl
within_day-append now (x ∷ xs) ys = elim (Bool-cases (after x (cutoff now))) [
  | inl new ↦ rw new (ap (λ es. x ∷ es) (within_day-append now xs ys))
  | inr old ↦ rw old (within_day-append now xs ys)
]

IsOrdered-weaken : (from : Time) (xs : List Time) → IsOrdered from xs → IsOrdered 0 xs
IsOrdered-weaken from [] h = tt
IsOrdered-weaken from (x ∷ xs) (_, h) = (omega arith, h)

IsOrdered-unexpired :
    (limit from : Time) (xs ys : List Time)
    → IsOrdered from (xs ++ ys)
    → IsOrdered 0 (unexpired limit xs ++ ys)
unfolding unexpired
IsOrdered-unexpired limit from [] ys h = IsOrdered-weaken from ys h
IsOrdered-unexpired limit from (x ∷ xs) ys h = elim (Bool-cases (after x limit)) [
  | inl new ↦ rw new (omega arith, h.1)
  | inr old ↦ rw old (IsOrdered-unexpired limit x xs ys h.1)
]

append_assoc : (xs ys zs : List Time) → (xs ++ ys) ++ zs ≡ xs ++ (ys ++ zs)
append_assoc [] ys zs = refl
append_assoc (x ∷ xs) ys zs = ap (λ es. x ∷ es) (append_assoc xs ys zs)

IsOrdered-front : (from : Time) (xs ys : List Time) → IsOrdered from (xs ++ ys) → IsOrdered from xs
IsOrdered-front from [] ys h = tt
IsOrdered-front from (x ∷ xs) ys (le, h) = (le, IsOrdered-front x xs ys h)

append_nil : (xs : List Time) → xs ++ [] ≡ xs
append_nil [] = refl
append_nil (x ∷ xs) = ap (λ es. x ∷ es) (append_nil xs)

-- Events counted one after the other.
unfoldable pub add_all : List Time → RollingCounter → RollingCounter
unfolding add
add_all [] c = c
add_all (at ∷ events) c = add_all events (add c at)

add_all-window :
    (now : Time) (events : List Time) (c : RollingCounter)
    → IsCounter c
    → IsOrdered 0 (window c ++ events)
    → All (λ at. at ≤ now) events
    → let counted = add_all events c in
      IsCounter counted
      × IsOrdered 0 (window counted)
      × (within_day now (window counted) ≡ within_day now (window c ++ events))
unfolding add_all
add_all-window now [] c counter ordered past = (
  counter,
  IsOrdered-front 0 (window c) [] ordered,
  ap (within_day now) (sym (append_nil (window c))),
)
add_all-window now (at ∷ events) c counter ordered (le, past) =
    let (left, counter_next) = add-window c at counter in
    let longer = window c ++ at ∷ [] in
    let joined = append_assoc (window c) (at ∷ []) events in
    let ordered_next : IsOrdered 0 (window (add c at) ++ events) =
      subst (λ w. IsOrdered 0 (w ++ events)) (sym left)
        (IsOrdered-unexpired (cutoff at) 0 longer events
          (subst (IsOrdered 0) (sym joined) ordered)) in
    let (counted, done, within) =
      add_all-window now events (add c at) counter_next ordered_next past in
    (
      counted,
      done,
      within
          ∙ within_day-append now (window (add c at)) events
          ∙ ap (λ w. within_day now w ++ within_day now events) left
          ∙ ap (λ w. w ++ within_day now events) (within_day-unexpired now at longer le)
          ∙ sym (within_day-append now longer events)
          ∙ ap (within_day now) joined,
    )

-- After events counted in the order of their times, `recent` gives exactly those of the last 24
-- hours, oldest first, and fewer expired events than 1024, or than those, are kept; none of the
-- events is later than the time at which it is asked.
pub recent-add_all :
    (events : List Time) (now : Time)
    → IsOrdered 0 events
    → All (λ at. at ≤ now) events
    → let (left, found) = recent (add_all events no_events) now in
      (found ≡ within_day now events) × ((left.start < 1024) ⊎ (left.start < length found))
unfolding window
recent-add_all events now ordered past =
    let counted = add_all events no_events in
    let (counter, in_order, within) =
      add_all-window now events no_events (omega arith) ordered past in
    let (found, left, _) = recent-window counted now counter in
    (
      found ∙ unexpired-ordered now 0 (window counted) in_order ∙ within,
      subst
          (λ es. ((recent counted now).0.start < 1024) ⊎ ((recent counted now).0.start < length es))
          (left ∙ sym found) (recent-size counted now),
    )
