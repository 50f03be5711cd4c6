-- ===== src/Examples/Routes.antt =====
-- The theorems on routing, at concrete candidates.
use mathlib.Core.List.{Memᴰ}
use codex_balancer.Prelude.{
  ◌≡◌, ◌≢◌, ◌⊎◌, ◌↔◌, refl, sym, inl, inr, Bool, true, false, none, some, [], ◌∷◌, String, List,
  str_eq, eq_iff, All, Ordering, nan, finite, pos, float_lt, float_suc, arith,
}
use codex_balancer.Account.Window.{hour}
use codex_balancer.Account.Mode.{live, prioritized, on_credits}
use codex_balancer.Routing.Candidate.{Candidate, available, credit_available, status}
use codex_balancer.Routing.Select.{compare_priority, select_fresh_account}
use codex_balancer.Routing.Select.Best.{select_fresh_account_sound}
use codex_balancer.Routing.Select.Permute.{UniqueIds, Within, select_fresh_account_order}
use codex_balancer.Routing.Route.{
  route, pick_account, account_allowed, cooldown_recovery, chosen, recovers, waits, keeps_route,
}
use codex_balancer.Routing.Route.Safety.{ChoiceOk, NoQuota, NoCredits, route_sound, route-none}
use codex_balancer.Routing.Route.Affinity.{route_retains, route_blocks, pick_account_allowed}
use codex_balancer.Routing.Route.Recovery.{Promised, Earliest, cooldown_recovery_lem}
use codex_balancer.Routing.Status.{status-available}
use codex_balancer.Examples.Data.{now, first, second, cooling, pair}

abbrev all : Candidate → Bool
all c = true

abbrev nobody : String → Bool
nobody id = false

-- The idler of two accounts whose pressures differ by less than one point.
chooses_second : select_fresh_account pair now all ≡ some second
unfolding select_fresh_account codex_balancer.Prelude.scan codex_balancer.Routing.Select.roomier
    compare_priority codex_balancer.Routing.Candidate.routing_priority
    codex_balancer.Account.Window.remaining_percent codex_balancer.Account.Window.longest_window
    codex_balancer.Account.Quota.expiring_reset_credit
    codex_balancer.Account.Quota.next_reset_credit codex_balancer.Prelude.float_compare
    codex_balancer.Routing.Select.in_cohort float_lt float_suc codex_balancer.Routing.Select.idler
chooses_second = refl

numbers : (c : Candidate) → Memᴰ c pair → all c ≡ true → c.pressure ≢ nan
numbers c (Memᴰ.head e) h = λ f. ground arith
numbers c (Memᴰ.tail (Memᴰ.head e)) h = λ f. ground arith
numbers c (Memᴰ.tail (Memᴰ.tail m)) h = elim m [ ]

select_fresh_account_sound_example :
    Memᴰ second pair
    × (all second ≡ true)
    × ((compare_priority now second first ≡ Ordering.lt)
        ⊎ ((compare_priority now first second ≡ Ordering.eq)
            × (float_lt (float_suc first.pressure) second.pressure ≡ false)))
select_fresh_account_sound_example =
    select_fresh_account_sound now all pair second first numbers chooses_second (Memᴰ.head refl)
      refl

abbrev pair' : List Candidate
pair' = second ∷ first ∷ []

there : Within pair pair'
there c (Memᴰ.head e) = Memᴰ.tail (Memᴰ.head e)
there c (Memᴰ.tail (Memᴰ.head e)) = Memᴰ.head e
there c (Memᴰ.tail (Memᴰ.tail m)) = elim m [ ]

back : Within pair' pair
back c (Memᴰ.head e) = Memᴰ.tail (Memᴰ.head e)
back c (Memᴰ.tail (Memᴰ.head e)) = Memᴰ.head e
back c (Memᴰ.tail (Memᴰ.tail m)) = elim m [ ]

distinct : first.id ≢ second.id
distinct h =
    let t = (eq_iff first.id second.id).1 h in
    let f : str_eq first.id second.id ≡ false = refl in cc

unique : UniqueIds pair
unique c d (Memᴰ.head e) (Memᴰ.head f) h = rw (e, f) refl
unique c d (Memᴰ.head e) (Memᴰ.tail (Memᴰ.head f)) h = absurd (distinct (rw (e, f) at h))
unique c d (Memᴰ.tail (Memᴰ.head e)) (Memᴰ.head f) h = absurd (distinct (rw (e, f) at (sym h)))
unique c d (Memᴰ.tail (Memᴰ.head e)) (Memᴰ.tail (Memᴰ.head f)) h = rw (e, f) refl
unique c d (Memᴰ.tail (Memᴰ.tail m)) n h = elim m [ ]
unique c d m (Memᴰ.tail (Memᴰ.tail n)) h = elim n [ ]

select_fresh_account_order_example :
    select_fresh_account pair now all ≡ select_fresh_account pair' now all
select_fresh_account_order_example = select_fresh_account_order now all pair pair' there back unique

-- A route that `first` owns stays with it, though `second` would be chosen afresh.
routes_first : (route now pair ("first" ∷ []) nobody).account ≡ some first
unfolding route codex_balancer.Routing.Route.owners_scan codex_balancer.Routing.Route.owner_scan
    keeps_route codex_balancer.Routing.Candidate.included_routing
    codex_balancer.Account.Mode.routable_plan codex_balancer.Routing.Candidate.weekly_exhausted
    codex_balancer.Account.Window.longest_window codex_balancer.Prelude.float_ge waits
    codex_balancer.Routing.Candidate.quota_known
routes_first = refl

route_sound_example :
    ChoiceOk now pair nobody (route now pair ("first" ∷ []) nobody).credit_fallback first
route_sound_example = route_sound now pair nobody ("first" ∷ []) first routes_first

abbrev cool_pair : List Candidate
cool_pair = cooling ∷ second ∷ []

routes_nobody : (route now cool_pair ("first" ∷ []) nobody).account ≡ none
unfolding route codex_balancer.Routing.Route.owners_scan codex_balancer.Routing.Route.owner_scan
    keeps_route codex_balancer.Routing.Candidate.included_routing
    codex_balancer.Account.Mode.routable_plan codex_balancer.Routing.Candidate.weekly_exhausted
    codex_balancer.Account.Window.longest_window codex_balancer.Prelude.float_ge waits
    codex_balancer.Routing.Candidate.quota_known
routes_nobody = refl

route-none_example :
    let d = route now cool_pair ("first" ∷ []) nobody in
    ((d.blocked ≡ "") × NoQuota now cool_pair nobody × NoCredits now cool_pair nobody)
    ⊎ (Memᴰ d.blocked ("first" ∷ [])
        × ((c : Candidate) × Memᴰ c cool_pair
            × (keeps_route c d.blocked ≡ true)
            × (waits c now ≡ true)))
route-none_example = route-none now cool_pair nobody ("first" ∷ []) routes_nobody

keeps_first : keeps_route first "first" ≡ true
unfolding keeps_route codex_balancer.Routing.Candidate.included_routing
    codex_balancer.Account.Mode.routable_plan codex_balancer.Routing.Candidate.weekly_exhausted
    codex_balancer.Account.Window.longest_window codex_balancer.Prelude.float_ge
keeps_first = refl

first_ready : waits first now ≡ false
unfolding waits codex_balancer.Routing.Candidate.quota_known
first_ready = refl

route_retains_example :
    ((route now pair ("first" ∷ "second" ∷ []) nobody).account ≡ some first)
    × ((route now pair ("first" ∷ "second" ∷ []) nobody).credit_fallback ≡ false)
route_retains_example =
    route_retains now nobody pair first ("second" ∷ []) (Memᴰ.head refl) unique keeps_first
      first_ready refl

cool_unique : UniqueIds cool_pair
cool_unique c d (Memᴰ.head e) (Memᴰ.head f) h = rw (e, f) refl
cool_unique c d (Memᴰ.head e) (Memᴰ.tail (Memᴰ.head f)) h = absurd (distinct (rw (e, f) at h))
cool_unique c d (Memᴰ.tail (Memᴰ.head e)) (Memᴰ.head f) h = absurd (distinct (rw (e, f) at (sym h)))
cool_unique c d (Memᴰ.tail (Memᴰ.head e)) (Memᴰ.tail (Memᴰ.head f)) h = rw (e, f) refl
cool_unique c d (Memᴰ.tail (Memᴰ.tail m)) n h = elim m [ ]
cool_unique c d m (Memᴰ.tail (Memᴰ.tail n)) h = elim n [ ]

keeps_cooling : keeps_route cooling "first" ≡ true
unfolding keeps_route codex_balancer.Routing.Candidate.included_routing
    codex_balancer.Account.Mode.routable_plan codex_balancer.Routing.Candidate.weekly_exhausted
    codex_balancer.Account.Window.longest_window codex_balancer.Prelude.float_ge
keeps_cooling = refl

cooling-waits : waits cooling now ≡ true
unfolding waits codex_balancer.Routing.Candidate.quota_known
cooling-waits = refl

route_blocks_example :
    ((route now cool_pair ("first" ∷ []) nobody).account ≡ none)
    × ((route now cool_pair ("first" ∷ []) nobody).blocked ≡ "first")
route_blocks_example =
    route_blocks now nobody cool_pair cooling [] (Memᴰ.head refl) cool_unique keeps_cooling
      cooling-waits

picks_second : (pick_account now pair pair [] (some (str_eq "second")) nobody).account ≡ some second
unfolding pick_account route codex_balancer.Routing.Route.owners_scan select_fresh_account
    codex_balancer.Prelude.scan available codex_balancer.Routing.Candidate.included_routing
    codex_balancer.Account.Mode.routable_plan codex_balancer.Routing.Candidate.weekly_exhausted
    codex_balancer.Account.Window.longest_window codex_balancer.Prelude.float_ge
    codex_balancer.Routing.Candidate.quota_known codex_balancer.Routing.Select.in_cohort
    compare_priority codex_balancer.Routing.Candidate.routing_priority
    codex_balancer.Account.Window.remaining_percent
    codex_balancer.Account.Quota.expiring_reset_credit
    codex_balancer.Account.Quota.next_reset_credit codex_balancer.Routing.Select.idler
    codex_balancer.Routing.Select.roomier codex_balancer.Prelude.float_compare
    codex_balancer.Routing.Route.fresh_route codex_balancer.Routing.Route.owned_route float_lt
    float_suc
picks_second = refl

pick_account_allowed_example :
    (account_allowed (some (str_eq "second")) "second" ≡ true)
    ⊎ All (λ d. str_eq d.id "second" ≡ false) pair
pick_account_allowed_example =
    pick_account_allowed now pair pair [] (some (str_eq "second")) nobody second picks_second

cooldown_recovery_lem_example :
    let d = route now cool_pair ("first" ∷ []) nobody in
    ((chosen d.account ≡ true) × (cooldown_recovery d none ≡ 0))
    ⊎ ((chosen d.account ≡ false)
        × (((cooldown_recovery d none ≡ 0) × All (λ c. recovers d none c ≡ false) d.candidates)
            ⊎ (Promised d none d.candidates (cooldown_recovery d none)
                × Earliest d none d.candidates (cooldown_recovery d none))))
cooldown_recovery_lem_example =
    cooldown_recovery_lem (route now cool_pair ("first" ∷ []) nobody) none

first-available : available first now ≡ true
unfolding available codex_balancer.Routing.Candidate.included_routing
    codex_balancer.Account.Mode.routable_plan codex_balancer.Routing.Candidate.weekly_exhausted
    codex_balancer.Account.Window.longest_window codex_balancer.Prelude.float_ge
    codex_balancer.Routing.Candidate.quota_known
first-available = refl

first_live : status first now ≡ live
unfolding status credit_available codex_balancer.Routing.Candidate.included_routing
    codex_balancer.Account.Mode.routable_plan codex_balancer.Routing.Candidate.weekly_exhausted
    codex_balancer.Account.Window.longest_window codex_balancer.Prelude.float_ge
    codex_balancer.Routing.Candidate.quota_known codex_balancer.Routing.Candidate.routing_priority
    codex_balancer.Account.Window.remaining_percent
    codex_balancer.Account.Quota.expiring_reset_credit
    codex_balancer.Account.Quota.next_reset_credit codex_balancer.Prelude.scan
first_live = refl

status-available_example : (available first now ≡ true) ⊎ (now ≡ first.cooldown)
status-available_example = status-available first now (inl first_live)
