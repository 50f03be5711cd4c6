-- ===== src/Pricing/Matching.antt =====
-- The sorted ids of a price snapshot of internal/app/pricing.go, and the first that a model varies.
use mathlib.Core.List.{Memᴰ}
use codex_balancer.Prelude.{
  ◌≤◌, ◌≡◌, refl, inl, inr, is_lt, true, some, List, [], ◌∷◌, String, arith, All, All-mem, All-map,
  Bool-cases,
}
use codex_balancer.Pricing.Estimate.{
  ModelPrice, byte_length, compare_ids, insert_id, sort_ids, is_variant, matching_id,
}

-- The ids of a catalogue.
abbrev pub ids_of : List (String × ModelPrice) → List String
ids_of [] = []
ids_of ((id, price) ∷ models) = id ∷ ids_of models

abbrev pub IsLonger : String → String → Type 0
IsLonger id other = byte_length other ≤ byte_length id

-- No id is longer than one before it.
abbrev pub IsDescending : List String → Type 0
IsDescending [] = Unit
IsDescending (id ∷ ids) = All (IsLonger id) ids × IsDescending ids

insert_id-All :
    (P : String → Type 0) (id : String) (ids : List String)
    → P id
    → All P ids
    → All P (insert_id id ids)
unfolding insert_id
insert_id-All P id [] p h = (p, tt)
insert_id-All P id (other ∷ ids) p (q, h) = elim (Bool-cases (is_lt (compare_ids other id))) [
  | inl before ↦ rw before (q, insert_id-All P id ids p h)
  | inr after ↦ rw after (p, (q, h))
]

insert_id-IsDescending :
    (id : String) (ids : List String) → IsDescending ids → IsDescending (insert_id id ids)
unfolding insert_id
insert_id-IsDescending id [] h = (tt, tt)
insert_id-IsDescending id (other ∷ ids) (longer, h) =
    elim (Bool-cases (is_lt (compare_ids other id))) [
      | inl before ↦ rw before (
        insert_id-All (IsLonger other) id ids (ground arith) longer,
        insert_id-IsDescending id ids h,
      )
      | inr after ↦
          let le : byte_length other ≤ byte_length id = ground arith in
          rw after (
            (le, All-map (IsLonger other) (IsLonger id) ids (λ a p. omega arith) longer),
            (longer, h),
          )
    ]

insert_id-mem : (x id : String) (ids : List String) → Memᴰ x (id ∷ ids) → Memᴰ x (insert_id id ids)
unfolding insert_id
insert_id-mem x id [] m = m
insert_id-mem x id (other ∷ ids) (Memᴰ.head e) = elim (Bool-cases (is_lt (compare_ids other id))) [
  | inl before ↦ rw before (Memᴰ.tail (insert_id-mem x id ids (Memᴰ.head e)))
  | inr after ↦ rw after (Memᴰ.head e)
]
insert_id-mem x id (other ∷ ids) (Memᴰ.tail (Memᴰ.head e)) =
    elim (Bool-cases (is_lt (compare_ids other id))) [
      | inl before ↦ rw before (Memᴰ.head e)
      | inr after ↦ rw after (Memᴰ.tail (Memᴰ.head e))
    ]
insert_id-mem x id (other ∷ ids) (Memᴰ.tail (Memᴰ.tail n)) =
    elim (Bool-cases (is_lt (compare_ids other id))) [
      | inl before ↦ rw before (Memᴰ.tail (insert_id-mem x id ids (Memᴰ.tail n)))
      | inr after ↦ rw after (Memᴰ.tail (Memᴰ.tail n))
    ]

pub sort_ids_lem :
    (models : List (String × ModelPrice))
    → IsDescending (sort_ids models)
      × ((x : String) → Memᴰ x (ids_of models) → Memᴰ x (sort_ids models))
unfolding sort_ids
sort_ids_lem [] = (tt, λ x m. m)
sort_ids_lem ((id, price) ∷ models) =
    let (sorted, listed) = sort_ids_lem models in
    (
      insert_id-IsDescending id (sort_ids models) sorted,
      λ x m. insert_id-mem x id (sort_ids models) (kept x listed m),
    )
  where
    kept :
        (x : String)
        → ((y : String) → Memᴰ y (ids_of models) → Memᴰ y (sort_ids models))
        → Memᴰ x (id ∷ ids_of models)
        → Memᴰ x (id ∷ sort_ids models)
    kept x listed (Memᴰ.head e) = Memᴰ.head e
    kept x listed (Memᴰ.tail m) = Memᴰ.tail (listed x m)

pub matching_id_lem :
    (model other : String) (ids : List String) (id : String)
    → IsDescending ids
    → Memᴰ other ids
    → is_variant model other ≡ true
    → matching_id model ids ≡ some id
    → (is_variant model id ≡ true) × (byte_length other ≤ byte_length id)
unfolding matching_id
matching_id_lem model other [] id sorted m v h = elim m [ ]
matching_id_lem model other (first ∷ ids) id (longer, sorted) (Memᴰ.head e) v h =
    let hit : is_variant model first ≡ true = rw (← e) v in
    let g : some first ≡ some id = rw hit at h in
    let s : first ≡ id = ground arith in rw (← s, ← e) (v, omega arith)
matching_id_lem model other (first ∷ ids) id (longer, sorted) (Memᴰ.tail m) v h =
    elim (Bool-cases (is_variant model first)) [
      | inl hit ↦
          let g : some first ≡ some id = rw hit at h in
          let s : first ≡ id = ground arith in
          rw (← s) (hit, All-mem (IsLonger first) other ids longer m)
      | inr miss ↦ matching_id_lem model other ids id sorted m v (rw miss at h)
    ]

pub matching_id-mem :
    (model id : String) (ids : List String) → matching_id model ids ≡ some id → Memᴰ id ids
unfolding matching_id
matching_id-mem model id [] h = absurd (cc)
matching_id-mem model id (first ∷ ids) h = elim (Bool-cases (is_variant model first)) [
  | inl hit ↦ let g : some first ≡ some id = rw hit at h in Memᴰ.head (ground arith)
  | inr miss ↦ Memᴰ.tail (matching_id-mem model id ids (rw miss at h))
]

insert_id-from : (x id : String) (ids : List String) → Memᴰ x (insert_id id ids) → Memᴰ x (id ∷ ids)
unfolding insert_id
insert_id-from x id [] m = m
insert_id-from x id (other ∷ ids) m = elim (Bool-cases (is_lt (compare_ids other id))) [
  | inl before ↦ swapped (insert_id-from x id ids) (rw before at m)
  | inr after ↦ rw after at m
]
  where
    second : Memᴰ x (id ∷ ids) → Memᴰ x (id ∷ other ∷ ids)
    second (Memᴰ.head e) = Memᴰ.head e
    second (Memᴰ.tail n) = Memᴰ.tail (Memᴰ.tail n)

    swapped :
        (Memᴰ x (insert_id id ids) → Memᴰ x (id ∷ ids))
        → Memᴰ x (other ∷ insert_id id ids)
        → Memᴰ x (id ∷ other ∷ ids)
    swapped from (Memᴰ.head e) = Memᴰ.tail (Memᴰ.head e)
    swapped from (Memᴰ.tail n) = second (from n)

pub sort_ids-from :
    (models : List (String × ModelPrice)) (x : String)
    → Memᴰ x (sort_ids models)
    → Memᴰ x (ids_of models)
unfolding sort_ids
sort_ids-from [] x m = m
sort_ids-from ((id, price) ∷ models) x m =
    kept (sort_ids-from models x) (insert_id-from x id (sort_ids models) m)
  where
    kept :
        (Memᴰ x (sort_ids models) → Memᴰ x (ids_of models))
        → Memᴰ x (id ∷ sort_ids models)
        → Memᴰ x (id ∷ ids_of models)
    kept from (Memᴰ.head e) = Memᴰ.head e
    kept from (Memᴰ.tail n) = Memᴰ.tail (from n)

pub matching_id-some :
    (model other : String) (ids : List String)
    → Memᴰ other ids
    → is_variant model other ≡ true
    → (id : String) × (matching_id model ids ≡ some id)
unfolding matching_id
matching_id-some model other [] m v = elim m [ ]
matching_id-some model other (first ∷ ids) (Memᴰ.head e) v =
    let hit : is_variant model first ≡ true = rw (← e) v in rw hit (first, refl)
matching_id-some model other (first ∷ ids) (Memᴰ.tail m) v =
    let (id, found) = matching_id-some model other ids m v in
    elim (Bool-cases (is_variant model first)) [
      | inl hit ↦ rw hit (first, refl)
      | inr miss ↦ rw miss (id, found)
    ]
