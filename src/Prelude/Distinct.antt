-- ===== src/Prelude/Distinct.antt =====
-- Lists without a repeated element.
use Prim.Native.Nat.{ℕ, zero, suc, ◌≤◌}
use Prim.Native.String.{String}
use mathlib.Core.Path.{◌≡◌, refl}
use mathlib.Core.Logic.{◌≢◌, inl, inr}
use mathlib.Core.Bool.{Bool, true, false, not, ◌&&◌, ◌||◌}
use mathlib.Core.List.{List, [], ◌∷◌, ◌++◌, map}
use native.Mathlib.Omega.{arith}
use text.Mathlib.Text.{◌==◌}
use text.Mathlib.TextEquality.{eq_iff}
use multiprox.Prelude.Tests.{&&-eq-true, Bool-cases, both_values}
use multiprox.Prelude.Lists.{All, Any, All-append, range_from}

module _ {ℓ} {A : Type ℓ} where
  abbrev pub AllDistinct : List A → Type ℓ
  AllDistinct [] = Unit
  AllDistinct (x ∷ xs) = All (λ y. x ≢ y) xs × AllDistinct xs

  pub AllDistinct-append :
      (xs ys : List A)
      → AllDistinct xs
      → AllDistinct ys
      → All (λ x. All (λ y. x ≢ y) ys) xs
      → AllDistinct (xs ++ ys)
  AllDistinct-append [] ys _ k _ = k
  AllDistinct-append (x ∷ xs) ys (h, hs) k (apart, rest) =
      (All-append (λ y. x ≢ y) xs ys h apart, AllDistinct-append xs ys hs k rest)

  module _ (f : ℕ → A) where
    pub All-map_range :
        (P : A → Type ℓ) (i n : ℕ) → ((j : ℕ) → i ≤ j → P (f j)) → All P (map f (range_from i n))
    All-map_range P i zero h = tt
    All-map_range P i (suc n) h =
        (h i (omega arith), All-map_range P (suc i) n (λ j p. h j (omega arith)))

    -- an injective function on a range
    pub AllDistinct-map_range :
        ((i j : ℕ) → f i ≡ f j → i ≡ j) → (i n : ℕ) → AllDistinct (map f (range_from i n))
    AllDistinct-map_range inj i zero = tt
    AllDistinct-map_range inj i (suc n) = (
      All-map_range (λ y. f i ≢ y) (suc i) n (λ j p e. let same = inj i j e in omega arith),
      AllDistinct-map_range inj (suc i) n,
    )

-- the test of it on texts, which computes on literals
abbrev pub apart_from : String → List String → Bool
apart_from s [] = true
apart_from s (t ∷ ts) = not (s == t) && apart_from s ts

abbrev pub distinct_texts : List String → Bool
distinct_texts [] = true
distinct_texts (s ∷ ts) = apart_from s ts && distinct_texts ts

apart_from-All : (s : String) (ts : List String) → apart_from s ts ≡ true → All (λ t. s ≢ t) ts
apart_from-All s [] h = tt
apart_from-All s (t ∷ ts) h =
    let (here, later) = &&-eq-true (not (s == t)) (apart_from s ts) h in
    (λ e. ground (arith, (eq_iff s t).1 e), apart_from-All s ts later)

pub distinct_texts-AllDistinct : (ts : List String) → distinct_texts ts ≡ true → AllDistinct ts
distinct_texts-AllDistinct [] h = tt
distinct_texts-AllDistinct (s ∷ ts) h =
    let (here, later) = &&-eq-true (apart_from s ts) (distinct_texts ts) h in
    (apart_from-All s ts here, distinct_texts-AllDistinct ts later)

abbrev pub is_among : String → List String → Bool
is_among s [] = false
is_among s (t ∷ ts) = t == s || is_among s ts

pub is_among-Any : (s : String) (ts : List String) → is_among s ts ≡ true → Any (λ t. t ≡ s) ts
is_among-Any s [] h = absurd (both_values false h refl)
is_among-Any s (t ∷ ts) h = elim (Bool-cases (t == s)) [
  | inl same ↦ inl ((eq_iff t s).0 same)
  | inr apart ↦ inr (is_among-Any s ts (ground (arith)))
]

-- each element is one of the list
pub All-Any {ℓ} :
    {A : Type 0} {B : Type ℓ} (f : B → A) (xs : List B)
    → All (λ x. Any (λ y. y ≡ f x) (map f xs)) xs
All-Any f [] = tt
All-Any {B = B} f (x ∷ xs) = (inl refl, later xs (All-Any f xs))
  where
    later :
        (zs : List B)
        → All (λ z. Any (λ y. y ≡ f z) (map f xs)) zs
        → All (λ z. Any (λ y. y ≡ f z) (f x ∷ map f xs)) zs
    later [] _ = tt
    later (z ∷ zs) (h, hs) = (inr h, later zs hs)
