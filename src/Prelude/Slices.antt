-- ===== src/Prelude/Slices.antt =====
-- Laws of slices and of the lengths of lists.
use Prim.Native.Nat.{ℕ, zero, suc, ◌+◌, ◌*◌, ◌≤◌}
use mathlib.Core.Path.{◌≡◌, refl, sym, ap, ◌∙◌}
use mathlib.Core.Logic.{inl, inr}
use mathlib.Core.Bool.{Bool, true}
use mathlib.Core.List.{List, [], ◌∷◌, ◌++◌}
use native.Mathlib.Omega.{arith}
use mmxm.Prelude.Tests.{Bool-cases}
use mmxm.Prelude.Lists.{length, take, drop, insert_by, sort_by, All, flat_map, count_from}

module _ {A : Type 0} where
  pub length-insert_by :
      (le : A → A → Bool) (x : A) (xs : List A) → length (insert_by le x xs) ≡ suc (length xs)
  length-insert_by le x [] = refl
  length-insert_by le x (y ∷ ys) = elim (Bool-cases (le x y)) [
    | inl e ↦ rw e refl
    | inr e ↦ rw e (ap suc (length-insert_by le x ys))
  ]

  pub length-sort_by : (le : A → A → Bool) (xs : List A) → length (sort_by le xs) ≡ length xs
  length-sort_by le [] = refl
  length-sort_by le (x ∷ xs) = length-insert_by le x (sort_by le xs) ∙ ap suc (length-sort_by le xs)

  pub drop_done : (done rest : List A) → drop (length done) (done ++ rest) ≡ rest
  drop_done [] rest = refl
  drop_done (x ∷ done) rest = drop_done done rest

  pub append-take-drop : (n : ℕ) (xs : List A) → take n xs ++ drop n xs ≡ xs
  append-take-drop zero xs = refl
  append-take-drop (suc n) [] = refl
  append-take-drop (suc n) (x ∷ xs) = ap (◌∷◌ x) (append-take-drop n xs)

  pub length-drop_le : (n : ℕ) (xs : List A) → length (drop n xs) ≤ length xs
  length-drop_le zero xs = omega arith
  length-drop_le (suc n) [] = omega arith
  length-drop_le (suc n) (x ∷ xs) = omega (arith, length-drop_le n xs)

  pub append_nil : (xs : List A) → xs ++ [] ≡ xs
  append_nil [] = refl
  append_nil (x ∷ xs) = ap (◌∷◌ x) (append_nil xs)

  pub All-true : (xs : List A) → All (λ x. true ≡ true) xs
  All-true [] = tt
  All-true (x ∷ xs) = (refl, All-true xs)

  drop_short : (n : ℕ) (xs : List A) → length xs ≤ n → drop n xs ≡ []
  drop_short zero [] h = refl
  drop_short zero (x ∷ xs) h = absurd (omega arith)
  drop_short (suc n) [] h = refl
  drop_short (suc n) (x ∷ xs) h = drop_short n xs (omega arith)

  drop-drop : (n m : ℕ) (xs : List A) → drop m (drop n xs) ≡ drop (n + m) xs
  drop-drop zero m xs = let same : 0 + m ≡ m = omega arith in rw same refl
  drop-drop (suc n) zero [] = let same : suc n + 0 ≡ suc n = omega arith in rw same refl
  drop-drop (suc n) (suc m) [] =
      let same : suc n + suc m ≡ suc (n + suc m) = omega arith in rw same refl
  drop-drop (suc n) m (x ∷ xs) =
      let same : suc n + m ≡ suc (n + m) = omega arith in rw same (drop-drop n m xs)

  -- Slices of one size, one after the other, make up what is left of the list.
  pub flat_map-take-drop :
      (size a n : ℕ) (xs : List A)
      → length xs ≤ (a + n) * size
      → flat_map (λ k. take size (drop (k * size) xs)) (count_from a n) ≡ drop (a * size) xs
  flat_map-take-drop size a zero xs h =
      let same : a + 0 ≡ a = omega arith in sym (drop_short (a * size) xs (rw same at h))
  flat_map-take-drop size a (suc n) xs h =
      let move : a + suc n ≡ suc a + n = omega arith in
      let next : suc a * size ≡ a * size + size = omega arith in
      ap (λ r. take size (drop (a * size) xs) ++ r)
        (flat_map-take-drop size (suc a) n xs (rw move at h)
          ∙ rw next (sym (drop-drop (a * size) size xs)))
      ∙ append-take-drop size (drop (a * size) xs)
