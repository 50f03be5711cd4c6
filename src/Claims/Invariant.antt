-- ===== src/Claims/Invariant.antt =====
-- The consistency of the registry, and the changes of a claim that keep it.
use codex_balancer.Prelude.{
  ℕ, ◌≤◌, ◌≡◌, ◌⊎◌, inl, inr, if◌then◌else◌, true, false, Option, none, some, List, [], String,
  str_eq, arith, Bool-cases,
}
use codex_balancer.Prelude.Maps.{id_eq, lookup}
use codex_balancer.Claims.Registry.{Claim, Registry, has, attach_keys, detach_keys}
use codex_balancer.Claims.Keys.{detach_keys_lem, attach_keys_lem}

-- A key points to an uncommitted claim that lists it; an uncommitted claim holds every key that it
-- lists; a claim stands under its id, is referred to, and is not newer than the last id.
pub record IsConsistent (next : ℕ) (by_key : List (String × ℕ)) (by_id : List (ℕ × Claim))
    : Type 0 where
  pub keyed :
      (k : String) (i : ℕ)
      → lookup str_eq k by_key ≡ some i
      → (c : Claim) × (lookup id_eq i by_id ≡ some c)
        × (has k c.keys ≡ true)
        × (c.committed ≡ false)
  pub owned :
      (k : String) (i : ℕ) (c : Claim)
      → lookup id_eq i by_id ≡ some c
      → c.committed ≡ false
      → has k c.keys ≡ true
      → lookup str_eq k by_key ≡ some i
  pub live :
      (i : ℕ) (c : Claim) → lookup id_eq i by_id ≡ some c → (c.id ≡ i) × (1 ≤ c.refs) × (i ≤ next)

abbrev pub RegistryInv : Registry → Type 0
RegistryInv r = IsConsistent r.next r.by_key r.by_id

-- What stands under the id of a claim that no longer holds keys: nothing, or the claim committed.
abbrev pub Ended : Claim → Option Claim → Type 0
Ended c none = Unit
Ended c (some d) = (d.committed ≡ true) × (d.id ≡ c.id) × (1 ≤ d.refs)

-- The claims after the one under an id was replaced.
abbrev pub Replaced : ℕ → Option Claim → List (ℕ × Claim) → List (ℕ × Claim) → Type 0
Replaced n x by_id by_id' =
    (i : ℕ) → lookup id_eq i by_id' ≡ (if id_eq n i then x else lookup id_eq i by_id)

module _ {next : ℕ} {by_key : List (String × ℕ)} {by_id by_id' : List (ℕ × Claim)}
    (v : IsConsistent next by_key by_id) where
  -- A claim that loses its keys and ends.
  pub drop-IsConsistent :
      (c : Claim) (x : Option Claim)
      → lookup id_eq c.id by_id ≡ some c
      → Ended c x
      → Replaced c.id x by_id by_id'
      → IsConsistent next (detach_keys c.id c.keys by_key) by_id'
  drop-IsConsistent c x e ended at = record {
    keyed = λ k i h.
        let law = detach_keys_lem c.id c.keys by_key k in
        let old : lookup str_eq k by_key ≡ some i = ground arith in
        let (d, here, listed, fresh) = v.keyed k i old in (d, ground (arith, at i), listed, fresh);
    owned = λ k i d h fresh listed.
        ground (arith, at i, v.owned k i d, detach_keys_lem c.id c.keys by_key k);
    live = λ i d h. ground (arith, at i, v.live i d, v.live c.id c);
  }

  -- A committed claim that ends: it has no keys to lose.
  pub end-IsConsistent :
      (c : Claim) (x : Option Claim)
      → lookup id_eq c.id by_id ≡ some c
      → c.committed ≡ true
      → Ended c x
      → Replaced c.id x by_id by_id'
      → IsConsistent next by_key by_id'
  end-IsConsistent c x e done ended at = record {
    keyed = λ k i h.
        let (d, here, listed, fresh) = v.keyed k i h in (d, ground (arith, at i), listed, fresh);
    owned = λ k i d h fresh listed. ground (arith, at i, v.owned k i d);
    live = λ i d h. ground (arith, at i, v.live i d, v.live c.id c);
  }

  -- A claim with its keys and its commitment left as they are.
  pub update-IsConsistent :
      (c d : Claim)
      → lookup id_eq c.id by_id ≡ some c
      → d.id ≡ c.id
      → d.keys ≡ c.keys
      → d.committed ≡ c.committed
      → 1 ≤ d.refs
      → Replaced c.id (some d) by_id by_id'
      → IsConsistent next by_key by_id'
  update-IsConsistent c d e same keys committed refs at = record {
    keyed = λ k i h.
        let (b, here, listed, fresh) = v.keyed k i h in
        elim (Bool-cases (id_eq c.id i)) [
          | inl hit ↦ (d, ground (arith, at i), ground arith, ground arith)
          | inr miss ↦ (b, ground (arith, at i), listed, fresh)
        ];
    owned = λ k i b h fresh listed. ground (arith, at i, v.owned k i c, v.owned k i b);
    live = λ i b h. ground (arith, at i, v.live i b, v.live c.id c);
  }

-- A claim that is about to have keys attached: an uncommitted claim of the registry, or a new one that
-- has no keys.
abbrev pub Attachable : List (ℕ × Claim) → Claim → Type 0
Attachable by_id c =
    ((b : Claim) × (lookup id_eq c.id by_id ≡ some b) × (b.keys ≡ c.keys) × (b.committed ≡ false))
    ⊎ ((lookup id_eq c.id by_id ≡ none) × (c.keys ≡ []))

module _ {next : ℕ} {by_key : List (String × ℕ)} {by_id : List (ℕ × Claim)}
    (v : IsConsistent next by_key by_id) where
  -- An attachable claim lists a key only if the key points to it, and a key that points to it is
  -- listed.
  Attachable-keys :
      (c : Claim) (k : String)
      → Attachable by_id c
      → (has k c.keys ≡ true → lookup str_eq k by_key ≡ some c.id)
        × (lookup str_eq k by_key ≡ some c.id → has k c.keys ≡ true)
  unfolding has
  Attachable-keys c k (inl (b, e, same, fresh)) = (
    λ h. v.owned k c.id b e fresh (rw same h),
    λ h. let (d, here, listed, _) = v.keyed k c.id h in ground arith,
  )
  Attachable-keys c k (inr (e, none_held)) = (
    λ h. let g : false ≡ true = rw none_held at h in absurd (cc),
    λ h. let (d, here, listed, _) = v.keyed k c.id h in absurd (cc),
  )

module _ {next next' : ℕ} {by_key : List (String × ℕ)} {by_id by_id' : List (ℕ × Claim)}
    (v : IsConsistent next by_key by_id) where
  -- A claim with further keys attached.
  pub attach-IsConsistent :
      (c : Claim) (keys : List String)
      → Attachable by_id c
      → c.committed ≡ false
      → 1 ≤ c.refs
      → next ≤ next'
      → c.id ≤ next'
      → let attached = attach_keys c.id keys by_key c.keys in
        Replaced c.id (some (record c { keys = attached.1 })) by_id by_id'
        → IsConsistent next' attached.0 by_id'
  attach-IsConsistent c keys may fresh refs le le' at = record {
    keyed = λ k i h.
        let law = attach_keys_lem c.id keys by_key c.keys k in
        let keys_of = Attachable-keys v c k may in
        elim (Bool-cases (id_eq c.id i)) [
          | inl hit ↦ (
            record c { keys = (attach_keys c.id keys by_key c.keys).1 },
            ground (arith, at i),
            ground arith,
            fresh,
          )
          | inr miss ↦
              let old : lookup str_eq k by_key ≡ some i = ground arith in
              let (d, here, listed, fresh') = v.keyed k i old in
              (d, ground (arith, at i), listed, fresh')
        ];
    owned = λ k i b h fresh' listed.
        let law = attach_keys_lem c.id keys by_key c.keys k in
        let keys_of = Attachable-keys v c k may in ground (arith, at i, v.owned k i b);
    live = λ i b h. ground (arith, at i, v.live i b);
  }
