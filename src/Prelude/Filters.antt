-- ===== src/Prelude/Filters.antt =====
-- Laws of filters: of a list that is put together, and of one whose elements change.
use Prim.Native.Nat.{ℕ, zero, suc, ◌≤◌, ◌<◌}
use mathlib.Core.Path.{◌≡◌, refl, ◌∙◌, ap}
use mathlib.Core.Logic.{inl, inr}
use mathlib.Core.Bool.{Bool, true}
use mathlib.Core.List.{Memᴰ, List, [], ◌∷◌, ◌++◌, map}
use native.Mathlib.Omega.{arith}
use mmxm.Prelude.Tests.{Bool-cases}
use mmxm.Prelude.Lists.{length, filter, take, drop, sort_by, insert_by, All}

module _ {ℓ} {A : Type ℓ} where
  pub filter-append :
      (p : A → Bool) (xs ys : List (A)) → filter p (xs ++ ys) ≡ filter p xs ++ filter p ys
  filter-append p [] ys = refl
  filter-append p (x ∷ xs) ys = elim (Bool-cases (p x)) [
    | inl e ↦ rw (e, filter-append p xs ys) refl
    | inr e ↦ rw (e, filter-append p xs ys) refl
  ]

module _ {A B : Type 0} (p : B → Bool) (g : A → B) (f : A → A)
    (back : (x : A) → p (g (f x)) ≡ true → p (g x) ≡ true) where
  -- What passes after a change passed before it, so no more pass.
  pub length-filter-map :
      (xs : List A) → length (filter p (map g (map f xs))) ≤ length (filter p (map g xs))
  length-filter-map [] = omega arith
  length-filter-map (x ∷ xs) = elim (Bool-cases (p (g (f x)))) [
    | inl e ↦ rw (e, back x e) (omega (arith, length-filter-map xs))
    | inr e ↦ elim (Bool-cases (p (g x))) [
      | inl k ↦ rw (e, k) (omega (arith, length-filter-map xs))
      | inr k ↦ rw (e, k) (length-filter-map xs)
    ]
  ]

pub nil_of_length : {A : Type 0} (xs ys : List A) → ys ≡ [] → length xs ≤ length ys → xs ≡ []
nil_of_length [] ys e h = refl
nil_of_length (x ∷ xs) ys e h = absurd (let none_left = ap length e in omega arith)

-- How many elements of a list pass a test.
module _ {A : Type 0} (p : A → Bool) where
  abbrev pub tally : List A → ℕ
  tally xs = length (filter p xs)

  tally_one_more : (x : A) (xs ys : List A) → tally xs ≡ tally ys → tally (x ∷ xs) ≡ tally (x ∷ ys)
  tally_one_more x xs ys h = elim (Bool-cases (p x)) [ inl e ↦ rw e (ap suc h) | inr e ↦ rw e h ]

  tally_swap : (x y : A) (xs : List A) → tally (x ∷ y ∷ xs) ≡ tally (y ∷ x ∷ xs)
  tally_swap x y xs = elim (Bool-cases (p x)) [
    | inl e ↦ elim (Bool-cases (p y)) [ inl k ↦ rw (e, k) refl | inr k ↦ rw (e, k) refl ]
    | inr e ↦ elim (Bool-cases (p y)) [ inl k ↦ rw (e, k) refl | inr k ↦ rw (e, k) refl ]
  ]

  tally-insert_by :
      (le : A → A → Bool) (x : A) (xs : List A) → tally (insert_by le x xs) ≡ tally (x ∷ xs)
  tally-insert_by le x [] = refl
  tally-insert_by le x (y ∷ ys) = elim (Bool-cases (le x y)) [
    | inl e ↦ rw e refl
    | inr e ↦ rw e (
        tally_one_more y (insert_by le x ys) (x ∷ ys) (tally-insert_by le x ys) ∙ tally_swap y x ys)
  ]

  pub tally-sort_by : (le : A → A → Bool) (xs : List A) → tally (sort_by le xs) ≡ tally xs
  tally-sort_by le [] = refl
  tally-sort_by le (x ∷ xs) =
      tally-insert_by le x (sort_by le xs)
      ∙ tally_one_more x (sort_by le xs) xs (tally-sort_by le xs)

  tally_positive : {x : A} (xs : List A) → Memᴰ x xs → p x ≡ true → 0 < tally xs
  tally_positive [] m h = elim m [ ]
  tally_positive (y ∷ xs) (Memᴰ.head e) h = rw (← e, h) (omega arith)
  tally_positive (y ∷ xs) (Memᴰ.tail m) h = elim (Bool-cases (p y)) [
    | inl k ↦ rw k (omega arith)
    | inr k ↦ rw k (tally_positive xs m h)
  ]

  -- The first `n`, if there are so many and they all pass, are counted, and one after them that passes is too.
  pub tally-take :
      {z : A} (n : ℕ) (xs : List A)
      → length (take n xs) ≡ n
      → All (λ x. p x ≡ true) (take n xs)
      → Memᴰ z (drop n xs)
      → p z ≡ true
      → n < tally xs
  tally-take zero xs full h m k = tally_positive xs m k
  tally-take (suc n) [] full h m k = omega arith
  tally-take (suc n) (x ∷ xs) full (e, h) m k =
      let shorter : length (take n xs) ≡ n = omega arith in
      rw e (omega (arith, tally-take n xs shorter h m k))
