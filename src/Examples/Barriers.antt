-- ===== src/Examples/Barriers.antt =====
-- The theorems on barriers, at the registry that holds one claim.
use codex_balancer.Prelude.{
  ◌≡◌, refl, if◌then◌else◌, true, none, some, [], ◌∷◌, List, String, str_eq,
}
use codex_balancer.Prelude.Maps.{lookup}
use codex_balancer.Claims.Registry.{Claim, has, barrier_at, claim_at}
use codex_balancer.Claims.Lifecycle.{held_claim, preserve, commit}
use codex_balancer.Claims.Reach.{Reach-RegistryInv}
use codex_balancer.Claims.Barriers.{preserve_raises, commit_clears}
use codex_balancer.Examples.Registries.{claimed, claimed_reached, first_claim}

holds_first : held_claim claimed 1 "first" ≡ some first_claim
unfolding held_claim codex_balancer.Prelude.Maps.lookup codex_balancer.Claims.Select.select_account
    codex_balancer.Claims.Registry.route_claim_keys codex_balancer.Claims.Select.claim_for
    codex_balancer.Claims.Registry.claims_for_keys codex_balancer.Claims.Registry.claims_from
    claim_at codex_balancer.Claims.Registry.contains codex_balancer.Claims.Registry.put_attached
    codex_balancer.Prelude.Maps.insert codex_balancer.Claims.Registry.attach_keys
    codex_balancer.Prelude.Maps.erase
holds_first = refl

lists_session : has "s" first_claim.keys ≡ true
unfolding has
lists_session = refl

preserve_raises_example :
    (barrier_at (preserve claimed 1 "first").0 "s" ≡ some "first")
    × (lookup str_eq "s" (preserve claimed 1 "first").0.by_key ≡ none)
preserve_raises_example =
    preserve_raises claimed 1 "first" first_claim "s" (Reach-RegistryInv claimed_reached)
      holds_first refl lists_session

abbrev accepted_keys : List String
accepted_keys = "s" ∷ []

commit_clears_example :
    barrier_at (commit claimed 1 "first" accepted_keys) "s"
    ≡ (if has "s" accepted_keys then none else barrier_at claimed "s")
commit_clears_example = commit_clears claimed 1 "first" accepted_keys first_claim "s" holds_first
