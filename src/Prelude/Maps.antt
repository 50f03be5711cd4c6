-- ===== src/Prelude/Maps.antt =====
-- Maps: association lists, a key at most once when built by `insert`.
use codex_balancer.Prelude.{
  ℕ, ◌==◌, ◌≡◌, refl, if◌then◌else◌, Bool, true, Option, none, some, List, [], ◌∷◌, String, str_eq,
  eq_iff, arith, Bool-cases, inl, inr,
}

abbrev pub id_eq : ℕ → ℕ → Bool
id_eq a b = a == b

module _ {ℓ κ} {K : Type κ} {V : Type ℓ} (eq : K → K → Bool) where
  unfoldable pub lookup : K → List (K × V) → Option V
  lookup k [] = none
  lookup k ((j, v) ∷ m) = if eq j k then some v else lookup k m

  -- `delete(m, k)`.
  unfoldable pub erase : K → List (K × V) → List (K × V)
  erase k [] = []
  erase k ((j, v) ∷ m) = let rest = erase k m in if eq j k then rest else (j, v) ∷ rest

  -- `m[k] = v`.
  unfoldable pub insert : K → V → List (K × V) → List (K × V)
  insert k v m = (k, v) ∷ erase k m

module _ {ℓ κ} {K : Type κ} {V : Type ℓ} (eq : K → K → Bool)
    (sound : (j k : K) → eq j k ≡ true → j ≡ k) (eq_self : (k : K) → eq k k ≡ true) where
  pub lookup-erase :
      (j k : K) (m : List (K × V))
      → lookup eq j (erase eq k m) ≡ (if eq k j then none else lookup eq j m)
  unfolding lookup erase
  lookup-erase j k [] = ground arith
  lookup-erase j k ((i, v) ∷ m) =
      ground (
        arith,
        lookup-erase j k m,
        sound i k,
        sound i j,
        sound k j,
        eq_self i,
        eq_self j,
        eq_self k,
      )

  pub lookup-insert :
      (j k : K) (v : V) (m : List (K × V))
      → lookup eq j (insert eq k v m) ≡ (if eq k j then some v else lookup eq j m)
  unfolding lookup insert
  lookup-insert j k v m = ground (arith, lookup-erase j k m)

-- The laws at the two kinds of keys.
id_sound : (j k : ℕ) → id_eq j k ≡ true → j ≡ k
id_sound j k h = ground arith

id_self : (k : ℕ) → id_eq k k ≡ true
id_self k = ground arith

key_sound : (j k : String) → str_eq j k ≡ true → j ≡ k
key_sound j k h = (eq_iff j k).0 h

key_self : (k : String) → str_eq k k ≡ true
key_self k = (eq_iff k k).1 refl

module _ {ℓ} {V : Type ℓ} where
  pub lookup-erase_id :
      (j k : ℕ) (m : List (ℕ × V))
      → lookup id_eq j (erase id_eq k m) ≡ (if id_eq k j then none else lookup id_eq j m)
  lookup-erase_id = lookup-erase id_eq id_sound id_self

  pub lookup-insert_id :
      (j k : ℕ) (v : V) (m : List (ℕ × V))
      → lookup id_eq j (insert id_eq k v m) ≡ (if id_eq k j then some v else lookup id_eq j m)
  lookup-insert_id = lookup-insert id_eq id_sound id_self

  pub lookup-erase_key :
      (j k : String) (m : List (String × V))
      → lookup str_eq j (erase str_eq k m) ≡ (if str_eq k j then none else lookup str_eq j m)
  lookup-erase_key = lookup-erase str_eq key_sound key_self

  pub lookup-insert_key :
      (j k : String) (v : V) (m : List (String × V))
      → lookup str_eq j (insert str_eq k v m) ≡ (if str_eq k j then some v else lookup str_eq j m)
  lookup-insert_key = lookup-insert str_eq key_sound key_self

module _ {ℓ} {V : Type ℓ} where
  -- The value of a key changed in place.
  unfoldable pub modify : String → (V → V) → List (String × V) → List (String × V)
  modify k f [] = []
  modify k f ((j, v) ∷ m) =
      let rest = modify k f m in if str_eq j k then (j, f v) ∷ m else (j, v) ∷ rest

  -- The same, where a missing key has a value that it starts with.
  unfoldable pub modify_or : V → String → (V → V) → List (String × V) → List (String × V)
  modify_or new k f [] = (k, f new) ∷ []
  modify_or new k f ((j, v) ∷ m) =
      let rest = modify_or new k f m in if str_eq j k then (j, f v) ∷ m else (j, v) ∷ rest

  abbrev pub value_or : V → Option V → V
  value_or new none = new
  value_or new (some v) = v

  pub lookup-modify_or :
      (new : V) (j k : String) (f : V → V) (m : List (String × V))
      → lookup str_eq j (modify_or new k f m)
        ≡ (if str_eq k j then some (f (value_or new (lookup str_eq k m))) else lookup str_eq j m)
  unfolding lookup modify_or
  lookup-modify_or new j k f [] = ground arith
  lookup-modify_or new j k f ((i, v) ∷ m) = ground (
    arith,
    lookup-modify_or new j k f m,
    key_sound i k,
    key_sound i j,
    key_sound k j,
    key_self i,
    key_self j,
    key_self k,
  )

  -- No key stands twice.
  abbrev pub IsKeyed : List (String × V) → Type ℓ
  IsKeyed [] = Unit
  IsKeyed ((k, v) ∷ m) = (lookup str_eq k m ≡ none) × IsKeyed m

  pub erase-IsKeyed : (k : String) (m : List (String × V)) → IsKeyed m → IsKeyed (erase str_eq k m)
  unfolding erase
  erase-IsKeyed k [] h = tt
  erase-IsKeyed k ((j, v) ∷ m) h = elim (Bool-cases (str_eq j k)) [
    | inl e ↦ rw e (erase-IsKeyed k m h.1)
    | inr e ↦ rw e (let l = lookup-erase_key j k m in ground (arith, h.0), erase-IsKeyed k m h.1)
  ]

  pub insert-IsKeyed :
      (k : String) (v : V) (m : List (String × V)) → IsKeyed m → IsKeyed (insert str_eq k v m)
  unfolding insert
  insert-IsKeyed k v m h =
      (let l = lookup-erase_key k k m in let self = key_self k in ground arith, erase-IsKeyed k m h)
