-- ===== src/Pool/Reconciled.antt =====
-- The accounts that a pool has once it followed its store.
use codex_balancer.Prelude.{
  ◌≡◌, refl, sym, ◌∙◌, ap, inl, inr, Option, none, some, List, [], ◌∷◌, ◌++◌, String, str_eq,
  eq_iff, arith, Bool-cases, ◌==◌,
}
use codex_balancer.Account.State.{
  Tokens, Account, AccountState, apply_persisted, apply_credentials, claims_from_token, id,
}
use codex_balancer.Account.Window.{before}
use codex_balancer.Prelude.Maps.{lookup, erase, insert, lookup-erase_key, lookup-insert_key}
use codex_balancer.Pool.Reconcile.{
  Object, PoolChange, current_map, refreshed, follow, follow_all, no_change, reconcile,
}

module _ ⦃tokens : Tokens⦄ where
  abbrev pub ids : List Object → List String
  ids [] = []
  ids (o ∷ objects) = id o.account ∷ ids objects

  ids-append : (xs ys : List Object) → ids (xs ++ ys) ≡ ids xs ++ ids ys
  ids-append [] ys = refl
  ids-append (o ∷ xs) ys = ap (λ l. id o.account ∷ l) (ids-append xs ys)

  append_assoc : (xs ys zs : List String) → (xs ++ ys) ++ zs ≡ xs ++ (ys ++ zs)
  append_assoc [] ys zs = refl
  append_assoc (x ∷ xs) ys zs = ap (λ l. x ∷ l) (append_assoc xs ys zs)

  -- Each object of the map stands under its id.
  abbrev Keyed : List (String × Object) → Type 0
  Keyed m = (k : String) (o : Object) → lookup str_eq k m ≡ some o → id o.account ≡ k

  current_map-Keyed :
      (m : List (String × Object)) (objects : List Object) → Keyed m → Keyed (current_map m objects)
  unfolding current_map
  current_map-Keyed m [] v = v
  current_map-Keyed m (o ∷ objects) v =
      current_map-Keyed (insert str_eq (id o.account) o m) objects (λ k p h.
        ground (arith, v k p, lookup-insert_key k (id o.account) o m, eq_iff (id o.account) k))

  erase-Keyed : (m : List (String × Object)) (j : String) → Keyed m → Keyed (erase str_eq j m)
  erase-Keyed m j v k o h = ground (arith, v k o, lookup-erase_key k j m)

  apply_persisted-id :
      (a : Account) (s : AccountState)
      → (claims_from_token s.id_token).account_id ≡ id a
      → id (apply_persisted a s).0 ≡ id a
  unfolding apply_persisted apply_credentials id
  apply_persisted-id a s h = elim (Bool-cases (before s.last_refresh a.state.last_refresh)) [
    | inl older ↦ rw older refl
    | inr newer ↦ rw newer h
  ]

  refreshed-id :
      (existing stored : Object)
      → id existing.account ≡ id stored.account
      → id (refreshed existing stored).0.account ≡ id stored.account
  unfolding refreshed id
  refreshed-id existing stored h = elim (Bool-cases (existing.address == stored.address)) [
    | inl same ↦ rw same h
    | inr other ↦ rw other (apply_persisted-id existing.account stored.account.state (sym h) ∙ h)
  ]

  follow-ids :
      (m : List (String × Object)) (next : List Object) (c : PoolChange) (stored : Object)
      (x : Option Object)
      → Keyed m
      → lookup str_eq (id stored.account) m ≡ x
      → Keyed (follow m (next, c) stored x).0
        × (ids (follow m (next, c) stored x).1 ≡ ids next ++ id stored.account ∷ [])
  follow-ids m next c stored none v h = (v, ids-append next (stored ∷ []))
  follow-ids m next c stored (some existing) v h =
      let same = v (id stored.account) existing h in
      (
        erase-Keyed m (id stored.account) v,
        ids-append next ((refreshed existing stored).0 ∷ [])
            ∙ ap (λ i. ids next ++ i ∷ []) (refreshed-id existing stored same),
      )

  follow_all-ids :
      (m : List (String × Object)) (next : List Object) (c : PoolChange) (stored : List Object)
      → Keyed m
      → ids (follow_all m (next, c) stored).1 ≡ ids next ++ ids stored
  unfolding follow_all
  follow_all-ids m next c [] v = sym (append_nil (ids next))
    where
      append_nil : (xs : List String) → xs ++ [] ≡ xs
      append_nil [] = refl
      append_nil (x ∷ xs) = ap (λ l. x ∷ l) (append_nil xs)
  follow_all-ids m next c (o ∷ stored) v =
      let f = follow m (next, c) o (lookup str_eq (id o.account) m) in
      let (keyed, now) = follow-ids m next c o (lookup str_eq (id o.account) m) v refl in
      follow_all-ids f.0 f.1 f.2 stored keyed
      ∙ ap (λ l. l ++ ids stored) now
      ∙ append_assoc (ids next) (id o.account ∷ []) (ids stored)

  -- A pool that followed its store has the accounts of the store, in the store's order.
  pub reconcile-ids :
      (accounts stored : List Object) → ids (reconcile accounts stored).0 ≡ ids stored
  unfolding reconcile lookup
  reconcile-ids accounts stored =
      follow_all-ids (current_map [] accounts) [] no_change stored
        (current_map-Keyed [] accounts (λ k o h. absurd (cc)))
