-- ===== src/Refresh/Invariant.antt =====
-- What the single flight of internal/app/account_refresh.go keeps in every interleaving.
use codex_balancer.Prelude.{
  subst, sym, ap, ◌∙◌, ℕ, ◌+◌, ◌-◌, ◌==◌, ◌≤◌, ◌<◌, ◌≡◌, ◌⊎◌, inl, inr, refl, if◌then◌else◌, Bool,
  true, false, Bool-cases, Option-cases, ◌&&◌, Option, none, some, List, [], ◌∷◌, String, str_eq,
  arith,
}
use codex_balancer.Refresh.Flight.{
  Operation, new_operation, Flight, waits_end, joined, set_operation, join, start_operation,
  enter_at, enter, is_inflight, leave, finish,
}
use codex_balancer.Refresh.Callers.{
  callers_of, remove_one, System, enters, Step, entering, leaving, ending, marking, Reach, fresh,
  later,
}

-- What an operation in flight satisfies: it is not done, and is abandoned exactly if nobody waits.
abbrev IsInflight : Flight → Option ℕ → List ℕ → Type 0
IsInflight f none running = running ≡ []
IsInflight f (some i) running =
    (running ≡ i ∷ [])
    × (i < f.next)
    × ((f.operations i).result ≡ none)
    × ((f.operations i).abandoned ≡ ((f.operations i).waiters == 0))

abbrev pub SystemInv : System → Type 0
SystemInv s =
    ((i : ℕ) → (s.flight.operations i).waiters ≡ callers_of i s.waiting)
    × ((i : ℕ) → s.flight.next ≤ i → callers_of i s.waiting ≡ 0)
    × ((i : ℕ) → s.flight.next ≤ i → (s.flight.operations i).result ≡ none)
    × IsInflight s.flight s.flight.inflight s.running

callers_of-remove_one :
    (i j : ℕ) (waiting : List ℕ)
    → callers_of j (remove_one i waiting)
      ≡ (if i == j then callers_of j waiting - 1 else callers_of j waiting)
unfolding callers_of remove_one
callers_of-remove_one i j [] = ground arith
callers_of-remove_one i j (k ∷ waiting) = let h = callers_of-remove_one i j waiting in ground arith

module _ (i : ℕ) (f : Flight) (waiting running : List ℕ) where
  -- A caller joins an operation in flight that is not abandoned.
  join-SystemInv :
      f.inflight ≡ some i
      → ((j : ℕ) → (f.operations j).waiters ≡ callers_of j waiting)
      → ((j : ℕ) → f.next ≤ j → callers_of j waiting ≡ 0)
      → ((j : ℕ) → f.next ≤ j → (f.operations j).result ≡ none)
      → running ≡ i ∷ []
      → i < f.next
      → (f.operations i).result ≡ none
      → (f.operations i).abandoned ≡ false
      → SystemInv (record { flight = join i f; waiting = i ∷ waiting; running = running })
  unfolding join set_operation callers_of
  join-SystemInv inflight waiters unused pending runs made undone live = (
    λ j.
        (let w = waiters j in
          elim (Bool-cases (i == j)) [
            | inl e ↦ let eq : j ≡ i = ground arith in rw eq (let v = waiters i in ground arith)
            | inr e ↦ ground arith
          ]),
    λ j le. (let w = unused j le in ground arith),
    λ j le. (let w = pending j le in ground arith),
    subst (λ o. IsInflight (join i f) o running) (sym inflight)
        (runs, made, ground arith, ground arith),
  )

enter_at-SystemInv :
    (o : Option ℕ) (alive registered : Bool) (s : System)
    → s.flight.inflight ≡ o
    → SystemInv s
    → SystemInv (enters s (enter_at o alive registered s.flight))
unfolding enter_at start_operation set_operation
enter_at-SystemInv none alive registered s flight (waiters, unused, pending, flying) =
    let f = s.flight in
    let runs : s.running ≡ [] = subst (λ o. IsInflight f o s.running) flight flying in
    let same : SystemInv s = (waiters, unused, pending, flying) in
    elim (Bool-cases alive) [
      | inr over ↦ rw over same
      | inl living ↦ rw living (elim (Bool-cases (str_eq f.reauth "")) [
        | inr marked ↦ rw marked same
        | inl fine ↦ rw fine (elim (Bool-cases registered) [
          | inr stopped ↦ rw stopped same
          | inl counted ↦
              let fresh_next : (f.next + 1 == f.next) ≡ false = ground arith in
              rw counted (
                rw fresh_next (
                  join-SystemInv f.next
                    (set_operation f.next new_operation
                      (record f { inflight = some f.next; next = f.next + 1 }))
                    s.waiting (f.next ∷ s.running) refl
                    (λ j.
                      (let w = waiters j in
                        let u = unused j in
                        elim (Bool-cases (j == f.next)) [
                          | inl e ↦ let z = unused j (ground arith) in ground arith
                          | inr e ↦ ground arith
                        ]))
                    (λ j le. unused j (omega arith))
                    (λ j le. let w = pending j (omega arith) in ground arith)
                    (ap (λ r. f.next ∷ r) runs) (omega arith) (ground arith) (ground arith)))
        ])
      ])
    ]
enter_at-SystemInv (some i) alive registered s flight (waiters, unused, pending, flying) =
    let f = s.flight in
    let (runs, made, undone, gone) = subst (λ o. IsInflight f o s.running) flight flying in
    let next_state : Bool → System =
      λ gone. enters s (if gone then (f, waits_end i) else (join i f, joined i)) in
    let same_next : (f.next == f.next) ≡ true = ground arith in
    elim (Bool-cases (f.operations i).abandoned) [
      | inl e ↦ subst (λ b. SystemInv (next_state b)) (sym e) (waiters, unused, pending, flying)
      | inr e ↦
          subst (λ b. SystemInv (next_state b)) (sym e)
            (subst
              (λ b. SystemInv (record {
                flight = join i f;
                waiting = i ∷ s.waiting;
                running = if b then s.running else i ∷ s.running;
              }))
              (sym same_next)
              (join-SystemInv i f s.waiting s.running flight waiters unused pending runs made undone
                e))
    ]

-- An operation is replaced, while the one in flight stays the same.
set_operation-IsInflight :
    (i : ℕ) (op : Operation) (f : Flight) (o : Option ℕ) (running : List ℕ)
    → (f.operations i).result ≡ op.result
    → is_inflight o i ≡ false ⊎ (op.abandoned ≡ (op.waiters == 0))
    → IsInflight f o running
    → IsInflight (set_operation i op f) o running
unfolding set_operation
set_operation-IsInflight i op f none running result abandoned h = h
set_operation-IsInflight i op f (some k) running result abandoned (only, made, undone, gone) =
    elim (Bool-cases (k == i)) [
      | inl e ↦
          let eq : k ≡ i = ground arith in
          let undone_i : (f.operations i).result ≡ none =
            subst (λ j. (f.operations j).result ≡ none) eq undone in
          (
            only,
            made,
            rw e (sym result ∙ undone_i),
            rw e (elim abandoned [
              | inl other ↦ absurd (let x : true ≡ false = sym e ∙ other in ground arith)
              | inr done ↦ done
            ]),
          )
      | inr e ↦ (only, made, rw e undone, rw e gone)
    ]

-- Where other callers go on waiting, the operation in flight is not abandoned.
left_waiters :
    (i : ℕ) (f : Flight) (o : Option ℕ) (running : List ℕ)
    → (f.operations i).waiters - 1 == 0 && is_inflight o i ≡ false
    → 1 ≤ (f.operations i).waiters
    → IsInflight f o running
    → is_inflight o i ≡ false ⊎ ((f.operations i).abandoned ≡ ((f.operations i).waiters - 1 == 0))
left_waiters i f none running stays some_wait h = inl refl
left_waiters i f (some k) running stays some_wait (only, made, undone, gone) =
    elim (Bool-cases (k == i)) [
      | inl e ↦
          let eq : k ≡ i = ground arith in
          let gone_i : (f.operations i).abandoned ≡ ((f.operations i).waiters == 0) =
            subst (λ j. (f.operations j).abandoned ≡ ((f.operations j).waiters == 0)) eq gone in
          inr (ground arith)
      | inr e ↦ inl e
    ]

leave-SystemInv :
    (i : ℕ) (s : System)
    → 1 ≤ callers_of i s.waiting
    → SystemInv s
    → SystemInv (record s { flight = leave i s.flight; waiting = remove_one i s.waiting })
unfolding leave set_operation
leave-SystemInv i s waits (waiters, unused, pending, flying) =
    let f = s.flight in
    let last = (f.operations i).waiters - 1 == 0 && is_inflight f.inflight i in
    elim (Bool-cases last) [
      | inl gone ↦ rw gone (
        (λ j.
            (let c = callers_of-remove_one i j s.waiting in
              let w = waiters j in
              elim (Bool-cases (j == i)) [
                | inl e ↦ let eq : j ≡ i = ground arith in ground arith
                | inr e ↦ ground arith
              ])),
        λ j le.
            (let c = callers_of-remove_one i j s.waiting in let u = unused j le in ground arith),
        λ j le. (let w = pending j le in ground arith),
        set_operation-IsInflight i _ f f.inflight s.running refl (inr (ground arith)) flying,
      )
      | inr stays ↦ rw stays (
        (λ j.
            (let c = callers_of-remove_one i j s.waiting in
              let w = waiters j in
              elim (Bool-cases (j == i)) [
                | inl e ↦ let eq : j ≡ i = ground arith in ground arith
                | inr e ↦ ground arith
              ])),
        λ j le.
            (let c = callers_of-remove_one i j s.waiting in let u = unused j le in ground arith),
        λ j le. (let w = pending j le in ground arith),
        set_operation-IsInflight i _ f f.inflight s.running refl
            (left_waiters i f f.inflight s.running stays (let w = waiters i in omega arith) flying)
            flying,
      )
    ]

finish-SystemInv :
    (i : ℕ) (err : List String) (s : System)
    → 1 ≤ callers_of i s.running
    → SystemInv s
    → SystemInv (record s { flight = finish i err s.flight; running = remove_one i s.running })
unfolding finish set_operation callers_of remove_one
finish-SystemInv i err s runs (waiters, unused, pending, flying) =
    elim (Option-cases s.flight.inflight) [
      | inl e ↦
          let none_runs : s.running ≡ [] = subst (λ o. IsInflight s.flight o s.running) e flying in
          let z : callers_of i s.running ≡ 0 = ap (callers_of i) none_runs in absurd (omega arith)
      | inr (k, e) ↦
          let (only, made, undone, gone) = subst (λ o. IsInflight s.flight o s.running) e flying in
          let z : callers_of i s.running ≡ callers_of i (k ∷ []) = ap (callers_of i) only in
          let is : k ≡ i = ground arith in
          (
            λ j. (let w = waiters j in ground arith),
            unused,
            λ j le. (let w = pending j le in ground arith),
            let t : (k == i) ≡ true = ground arith in rw only (rw t refl),
          )
    ]

Step-SystemInv : {s t : System} → Step s t → SystemInv s → SystemInv t
unfolding enter
Step-SystemInv {s} (entering alive registered) h =
    enter_at-SystemInv s.flight.inflight alive registered s refl h
Step-SystemInv {s} (leaving i waits) h = leave-SystemInv i s waits h
Step-SystemInv {s} (ending i err runs) h = finish-SystemInv i err s runs h
Step-SystemInv (marking reauth) h = h

-- In every interleaving of callers and goroutines: an operation counts exactly the callers that wait
-- for it; one that is not made yet has none, and no result; if nothing is in flight no exchange runs;
-- and otherwise the one that is in flight is the only one that runs, it has no result yet, and it is
-- abandoned exactly if nobody waits for it.
pub Reach-SystemInv : {s : System} → Reach s → SystemInv s
unfolding callers_of
Reach-SystemInv fresh = (λ i. refl, λ i le. refl, λ i le. refl, refl)
Reach-SystemInv (later reach step) = Step-SystemInv step (Reach-SystemInv reach)
