-- ===== src/Prelude/Order.antt =====
-- Three-way comparisons that order a type, up to ties; lexicographic products; the order of texts.
use Prim.Native.Nat.{compare, Ordering}
use Prim.Native.String.{String, [], ◌∷◌, compare as string_compare}
use Prim.Native.String.compare
use mathlib.Core.Path.{◌≡◌, ap}
use mathlib.Core.Logic.{◌≢◌}
use mathlib.Core.Bool.{true, false}
use native.Mathlib.Omega.{arith}
use text.Mathlib.TextEquality.{path_by_compare}
use text.Mathlib.TextPositions.{compare_refl}
use codex_balancer.Prelude.Tests.{cmp_or, is_lt}
use codex_balancer.Prelude.Int.{int_compare}
use codex_balancer.Prelude.Float.{Float64, nan, float_compare, float_lt, float_suc}

pub record IsOrder {ℓ} {A : Type ℓ} (f : A → A → Ordering) : Type ℓ where
  pub reflexive : (a : A) → f a a ≡ Ordering.eq
  pub flip : (a b : A) → f a b ≡ Ordering.gt → f b a ≡ Ordering.lt
  pub trans : (a b c : A) → f a b ≡ Ordering.lt → f b c ≡ Ordering.lt → f a c ≡ Ordering.lt
  pub eq_left : (a b c : A) → f a b ≡ Ordering.eq → f a c ≡ f b c
  pub eq_right : (a b c : A) → f b c ≡ Ordering.eq → f a b ≡ f a c

module _ {ℓ} {A : Type ℓ} {f g : A → A → Ordering} (F : IsOrder f) (G : IsOrder g) where
  pub cmp_or-IsOrder : IsOrder (λ a b. cmp_or (f a b) (g a b))
  cmp_or-IsOrder = record {
    reflexive = λ a. ground (arith, F.reflexive a, G.reflexive a);
    flip = λ a b h. ground (arith, F.flip a b, G.flip a b, F.reflexive a, F.eq_left a b a);
    trans = λ a b c p q.
        ground (arith, F.trans a b c, G.trans a b c, F.eq_left a b c, F.eq_right a b c);
    eq_left = λ a b c p. ground (arith, F.eq_left a b c, G.eq_left a b c);
    eq_right = λ a b c p. ground (arith, F.eq_right a b c, G.eq_right a b c);
  }

module _ {ℓ κ} {A : Type ℓ} {B : Type κ} {f : A → A → Ordering} (F : IsOrder f) (k : B → A) where
  pub on_key-IsOrder : IsOrder (λ a b. f (k a) (k b))
  on_key-IsOrder = record {
    reflexive = λ a. F.reflexive (k a);
    flip = λ a b. F.flip (k a) (k b);
    trans = λ a b c. F.trans (k a) (k b) (k c);
    eq_left = λ a b c. F.eq_left (k a) (k b) (k c);
    eq_right = λ a b c. F.eq_right (k a) (k b) (k c);
  }

pub compare-IsOrder : IsOrder compare
compare-IsOrder = record {
  reflexive = λ a. ground arith;
  flip = λ a b h. ground arith;
  trans = λ a b c p q. ground arith;
  eq_left = λ a b c p. ground arith;
  eq_right = λ a b c p. ground arith;
}

int_compare-IsOrder : IsOrder int_compare
int_compare-IsOrder = record {
  reflexive = λ a. ground arith;
  flip = λ a b h. ground arith;
  trans = λ a b c p q. ground arith;
  eq_left = λ a b c p. ground arith;
  eq_right = λ a b c p. ground arith;
}

pub float_compare-IsOrder : IsOrder float_compare
unfolding float_compare
float_compare-IsOrder = record {
  reflexive = λ a. ground arith;
  flip = λ a b h. ground arith;
  trans = λ a b c p q. ground arith;
  eq_left = λ a b c p. ground arith;
  eq_right = λ a b c p. ground arith;
}

string-flip : (s t : String) → string_compare s t ≡ Ordering.gt → string_compare t s ≡ Ordering.lt
string-flip [] [] h = ground (arith, compare.nil-nil)
string-flip [] (d ∷ t) h = ground (arith, compare.nil-cons d t)
string-flip (c ∷ s) [] h = compare.nil-cons c s
string-flip (c ∷ s) (d ∷ t) h =
    ground (arith, compare.cons-cons c d s t, compare.cons-cons d c t s, string-flip s t)

not_before_empty : (t : String) → string_compare t [] ≡ Ordering.lt → ⊥
not_before_empty [] h = ground (arith, compare.nil-nil)
not_before_empty (d ∷ t) h = ground (arith, compare.cons-nil d t)

string_trans :
    (s t u : String)
    → string_compare s t ≡ Ordering.lt
    → string_compare t u ≡ Ordering.lt
    → string_compare s u ≡ Ordering.lt
string_trans s t [] p q = absurd (not_before_empty t q)
string_trans [] t (e ∷ u) p q = compare.nil-cons e u
string_trans (c ∷ s) [] (e ∷ u) p q = ground (arith, compare.cons-nil c s)
string_trans (c ∷ s) (d ∷ t) (e ∷ u) p q = ground (
  arith,
  compare.cons-cons c d s t,
  compare.cons-cons d e t u,
  compare.cons-cons c e s u,
  string_trans s t u,
  path_by_compare s t,
)

pub string_compare-IsOrder : IsOrder string_compare
string_compare-IsOrder = record {
  reflexive = compare_refl;
  flip = string-flip;
  trans = string_trans;
  eq_left = λ a b c p. ap (λ s. string_compare s c) (path_by_compare a b p);
  eq_right = λ a b c p. ap (string_compare a) (path_by_compare b c p);
}

-- `beats` of a three-way comparison.
module _ {ℓ} {A : Type ℓ} {f : A → A → Ordering} (F : IsOrder f) where
  pub is_lt_irrefl : (a : A) → is_lt (f a a) ≡ false
  is_lt_irrefl a = ground (arith, F.reflexive a)

  pub is_lt_trans : (a b c : A) → is_lt (f a b) ≡ true → is_lt (f b c) ≡ true → is_lt (f a c) ≡ true
  is_lt_trans a b c p q = ground (arith, F.trans a b c)

  -- Two elements of which neither beats the other are tied.
  pub tied : (a b : A) → is_lt (f a b) ≡ false → is_lt (f b a) ≡ false → f a b ≡ Ordering.eq
  tied a b p q = ground (arith, F.flip a b)

pub float_compare-eq : (a b : Float64) → float_compare a b ≡ Ordering.eq → a ≡ b
unfolding float_compare
float_compare-eq a b h = ground arith

pub float_suc-not_lt : (x : Float64) → float_lt (float_suc x) x ≡ false
unfolding float_lt float_suc
float_suc-not_lt x = ground arith

-- A bound by one more than `a` is a bound by one more than any number that is not below `a`.
pub float_suc_bound :
    (a d r : Float64)
    → a ≢ nan
    → is_lt (float_compare d a) ≡ false
    → float_lt (float_suc a) r ≡ false
    → float_lt (float_suc d) r ≡ false
unfolding float_lt float_suc
float_suc_bound a d r h p q = ground arith
