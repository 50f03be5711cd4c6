-- ===== src/Claims/Barriers.antt =====
-- The barriers that a preserved claim raises and a committed one clears.
use codex_balancer.Prelude.{
  ℕ, ◌≡◌, refl, if◌then◌else◌, true, false, none, some, List, [], ◌∷◌, String, str_eq, eq_iff,
  arith,
}
use codex_balancer.Prelude.Maps.{lookup, erase, insert, lookup-erase_key, lookup-insert_key}
use codex_balancer.Claims.Registry.{Claim, Registry, has, barrier_at, detach_keys, remove_locked}
use codex_balancer.Claims.Lifecycle.{
  held_claim, raise_barriers, preserve, preserve_claim, erase_all, commit, commit_claim,
}
use codex_balancer.Claims.Keys.{detach_keys_lem}
use codex_balancer.Claims.Invariant.{RegistryInv}
use codex_balancer.Claims.Preservation.{held_lem}

raise_barriers_lem :
    (account : String) (keys : List String) (m : List (String × String)) (j : String)
    → lookup str_eq j (raise_barriers account keys m)
      ≡ (if has j keys then some account else lookup str_eq j m)
unfolding raise_barriers has
raise_barriers_lem account [] m j = refl
raise_barriers_lem account (k ∷ keys) m j = ground (
  arith,
  raise_barriers_lem account keys (insert str_eq k account m) j,
  lookup-insert_key j k account m,
  eq_iff k j,
)

erase_all_lem :
    (keys : List String) (m : List (String × String)) (j : String)
    → lookup str_eq j (erase_all keys m) ≡ (if has j keys then none else lookup str_eq j m)
unfolding erase_all has
erase_all_lem [] m j = refl
erase_all_lem (k ∷ keys) m j =
    ground (arith, erase_all_lem keys (erase str_eq k m) j, lookup-erase_key j k m, eq_iff k j)

-- In a consistent registry, preserving a claim that its holder may still use and that is not committed
-- detaches each of its keys, so that the key points to no claim at all, and raises a barrier for the
-- account on it.
pub preserve_raises :
    (r : Registry) (i : ℕ) (account : String) (c : Claim) (k : String)
    → RegistryInv r
    → held_claim r i account ≡ some c
    → c.committed ≡ false
    → has k c.keys ≡ true
    → (barrier_at (preserve r i account).0 k ≡ some account)
      × (lookup str_eq k (preserve r i account).0.by_key ≡ none)
unfolding preserve remove_locked
preserve_raises r i account c k v held fresh listed =
    let (found, _) = held_lem r v i account c held in
    let at = v.owned k c.id c found fresh listed in
    let barrier = raise_barriers_lem account c.keys r.barriers k in
    let free : lookup str_eq k (detach_keys c.id c.keys r.by_key) ≡ none =
      ground (arith, detach_keys_lem c.id c.keys r.by_key k) in
    (rw (held, preserve_claim) (ground arith), rw (held, preserve_claim) free)

-- A commit of a claim that its holder may still use clears the barriers on the accepted keys and
-- leaves the others.
pub commit_clears :
    (r : Registry) (i : ℕ) (account : String) (accepted_keys : List String) (c : Claim) (k : String)
    → held_claim r i account ≡ some c
    → barrier_at (commit r i account accepted_keys) k
      ≡ (if has k accepted_keys then none else barrier_at r k)
unfolding commit
commit_clears r i account accepted_keys c k held =
    rw (held, commit_claim) (erase_all_lem accepted_keys r.barriers k)
