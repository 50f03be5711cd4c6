-- ===== src/Claims/Keys.antt =====
-- What attaching and detaching keys does to the key map.
use codex_balancer.Prelude.{
  ℕ, ◌≡◌, refl, inl, inr, if◌then◌else◌, Bool, true, false, ◌&&◌, ◌||◌, Option, none, some, List,
  [], ◌∷◌, ◌++◌, String, str_eq, eq_iff, arith, Bool-cases, Option-cases,
}
use codex_balancer.Prelude.Maps.{lookup, erase, insert, lookup-erase_key, lookup-insert_key}
use codex_balancer.Claims.Registry.{has, points_to, attach_keys, detach_keys}

pub has-append_one :
    (j k : String) (ks : List String) → has j (ks ++ k ∷ []) ≡ (has j ks || str_eq k j)
unfolding has
has-append_one j k [] = ground arith
has-append_one j k (i ∷ ks) = ground (arith, has-append_one j k ks)

-- A key is detached exactly if it is listed and points to the claim.
pub detach_keys_lem :
    (i : ℕ) (ks : List String) (m : List (String × ℕ)) (j : String)
    → lookup str_eq j (detach_keys i ks m)
      ≡ (if has j ks && points_to (lookup str_eq j m) i then none else lookup str_eq j m)
unfolding detach_keys has
detach_keys_lem i [] m j = refl
detach_keys_lem i (k ∷ ks) m j = elim (Bool-cases (points_to (lookup str_eq k m) i)) [
  | inl hit ↦ rw hit (
      ground (arith, detach_keys_lem i ks (erase str_eq k m) j, lookup-erase_key j k m, eq_iff k j))
  | inr miss ↦ rw miss (ground (arith, detach_keys_lem i ks m j, eq_iff k j))
]

abbrev pub or_held : Option ℕ → Bool → ℕ → Option ℕ
or_held none listed i = if listed then some i else none
or_held (some x) listed i = some x

abbrev pub is_free : Option ℕ → Bool
is_free none = true
is_free (some x) = false

-- A listed key that is free is attached, in the map and in the claim's keys; another is left alone.
pub attach_keys_lem :
    (i : ℕ) (ks : List String) (m : List (String × ℕ)) (held : List String) (j : String)
    → let after = attach_keys i ks m held in
      (lookup str_eq j after.0 ≡ or_held (lookup str_eq j m) (has j ks) i)
      × (has j after.1 ≡ (has j held || (has j ks && is_free (lookup str_eq j m))))
unfolding attach_keys has
attach_keys_lem i [] m held j = ground arith
attach_keys_lem i (k ∷ ks) m held j = elim (Option-cases (lookup str_eq k m)) [
  | inr (x, taken) ↦
      rw (taken, attach_keys) (ground (arith, attach_keys_lem i ks m held j, eq_iff k j))
  | inl free ↦
      rw (free, attach_keys)
        (ground (
          arith,
          attach_keys_lem i ks (insert str_eq k i m) (held ++ k ∷ []) j,
          lookup-insert_key j k i m,
          has-append_one j k held,
          eq_iff k j,
        ))
]
