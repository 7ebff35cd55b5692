-- ===== src/SimPage/Falls.antt =====
-- apps/web/src/app/simulasi/page.tsx: the loop that finds the drawdown, against the peaks and falls of the
-- equity.
use mmxm.Prelude.{
  ◌≡◌, refl, sym, ◌∙◌, ◌⊎◌, inl, inr, true, false, List, [], ◌∷◌, Memᴰ, All, Bool-cases,
  if◌then◌else◌,
}
use mathlib.Core.Path.{subst}
use mmxm.Prelude.Loops.{mem_swap}
use mmxm.Double.{Double, IsOrdered, IsNumber, of_ℕ}
use mmxm.SimPage.{Drawdown, fall, drawdown_from, drawdown_of}

module _ {W : Type 0} ⦃d : Double W⦄ where
  open d use {lt, le, sub}

  -- The higher of two numbers.
  abbrev higher : W → W → W
  higher m x = if lt m x then x else m

  abbrev running_max : W → List W → W
  running_max m [] = m
  running_max m (x ∷ xs) = running_max (higher m x) xs

  -- How far each equity is below the highest one up to it.
  abbrev pub falls : W → List W → List W
  falls peak [] = []
  falls peak (eq ∷ eqs) = sub (higher peak eq) eq ∷ falls (higher peak eq) eqs

  higher-cases : (m x : W) → (higher m x ≡ x) ⊎ (higher m x ≡ m)
  higher-cases m x = elim (Bool-cases (lt m x)) [
    | inl e ↦ inl (rw e refl)
    | inr e ↦ inr (rw e refl)
  ]

  running_max-mem : (m : W) (xs : List W) → Memᴰ (running_max m xs) (m ∷ xs)
  running_max-mem m [] = Memᴰ.head refl
  running_max-mem m (x ∷ xs) = elim (higher-cases m x) [
    | inl e ↦ rw e (Memᴰ.tail (running_max-mem x xs))
    | inr e ↦ rw e (mem_swap x m xs (Memᴰ.tail (running_max-mem m xs)))
  ]

  drawdown_from-peak :
      (s : Drawdown W) (eqs : List W) → (drawdown_from s eqs).peak ≡ running_max s.peak eqs
  unfolding drawdown_from fall
  drawdown_from-peak s [] = refl
  drawdown_from-peak s (eq ∷ eqs) = drawdown_from-peak (fall eq s) eqs

  drawdown_from-max_dd :
      (s : Drawdown W) (eqs : List W)
      → (drawdown_from s eqs).max_dd ≡ running_max s.max_dd (falls s.peak eqs)
  unfolding drawdown_from fall
  drawdown_from-max_dd s [] = refl
  drawdown_from-max_dd s (eq ∷ eqs) = drawdown_from-max_dd (fall eq s) eqs

  drawdown_of-peak :
      (deposit : W) (eqs : List W) → (drawdown_of deposit eqs).peak ≡ running_max deposit eqs
  unfolding drawdown_of
  drawdown_of-peak deposit eqs = drawdown_from-peak _ eqs

  drawdown_of-max_dd :
      (deposit : W) (eqs : List W)
      → (drawdown_of deposit eqs).max_dd ≡ running_max (of_ℕ 0) (falls deposit eqs)
  unfolding drawdown_of
  drawdown_of-max_dd deposit eqs = drawdown_from-max_dd _ eqs

  -- What the loop finds of an equity that starts at the deposit.
  pub record IsDrawdown (deposit : W) (eqs : List W) (s : Drawdown W) : Type 0 where
    pub above : All (λ x. le x s.peak ≡ true) (deposit ∷ eqs)
    pub reached : Memᴰ s.peak (deposit ∷ eqs)
    pub worst : All (λ f. le f s.max_dd ≡ true) (of_ℕ 0 ∷ falls deposit eqs)
    pub fell : Memᴰ s.max_dd (of_ℕ 0 ∷ falls deposit eqs)

  module _ (o : IsOrdered W) where
    le-higher :
        (m x : W)
        → IsNumber m
        → IsNumber x
        → (le m (higher m x) ≡ true) × (le x (higher m x) ≡ true) × IsNumber (higher m x)
    le-higher m x hm hx = elim (Bool-cases (le x m)) [
      | inl e ↦
          let below : lt m x ≡ false = o.lt-eq-not-le m x hm hx ∙ rw e refl in rw below (hm, e, hm)
      | inr e ↦
          let above : lt m x ≡ true = o.lt-eq-not-le m x hm hx ∙ rw e refl in
          let up : le m x ≡ true = elim (o.le_total m x hm hx) [
            | inl k ↦ k
            | inr k ↦ let bad : true ≡ false = rw k at e in cc
          ] in
          rw above (up, hx, hx)
    ]

    running_max-bounds :
        (m : W) (xs : List W)
        → IsNumber m
        → All IsNumber xs
        → All (λ x. le x (running_max m xs) ≡ true) (m ∷ xs)
    running_max-bounds m [] hm h = (hm, tt)
    running_max-bounds m (x ∷ xs) hm (hx, h) =
        let (left, right, number) = le-higher m x hm hx in
        let (top, rest) = running_max-bounds (higher m x) xs number h in
        (o.le_trans _ _ _ left top, (o.le_trans _ _ _ right top, rest))

    -- Where the deposit, the equities and the falls are numbers, the peak is the highest of the deposit
    -- and the equities, and the largest drawdown is the largest of 0 and the falls: each is an
    -- upper bound and is reached.
    pub drawdown_of-IsDrawdown :
        (deposit : W) (eqs : List W)
        → IsNumber deposit
        → IsNumber (of_ℕ {W = W} 0)
        → All IsNumber eqs
        → All IsNumber (falls deposit eqs)
        → IsDrawdown deposit eqs (drawdown_of deposit eqs)
    drawdown_of-IsDrawdown deposit eqs hd hz he hf = record {
      above =
          subst (λ v. All (λ x. le x v ≡ true) (deposit ∷ eqs)) (sym (drawdown_of-peak deposit eqs))
            (running_max-bounds deposit eqs hd he);
      reached = rw (drawdown_of-peak deposit eqs) (running_max-mem deposit eqs);
      worst =
          subst (λ v. All (λ x. le x v ≡ true) (of_ℕ 0 ∷ falls deposit eqs))
            (sym (drawdown_of-max_dd deposit eqs))
            (running_max-bounds (of_ℕ 0) (falls deposit eqs) hz hf);
      fell = rw (drawdown_of-max_dd deposit eqs) (running_max-mem (of_ℕ 0) (falls deposit eqs));
    }
