-- ===== src/Plan/Targets.antt =====
-- packages/trading-core/src/engine.ts: the take-profits, their number, shares and places.
use mmxm.Prelude.{ℕ, ◌+◌, ◌≡◌, refl, true, List, [], ◌∷◌, arith, take, filter, All, inl, inr, ◌⊎◌}
use mmxm.Prelude.Loops.{All-of_mem, All-mem, mem-sort_by, filter-All, mem-take}
use mmxm.Double.{Double}
use mmxm.Types.{Direction, long, short, LiquidityLevel, TakeProfit, DealingRange, swing_high}
use mmxm.Checks.{if_long}
use mmxm.Plan.{is_opposing, nearer, opposing_levels, target, targets_from, take_profits_of}

module _ {W : Type 0} ⦃d : Double W⦄ where
  open d use {lt}

  abbrev pub total_allocation : List (TakeProfit W) → ℕ
  total_allocation [] = 0
  total_allocation (t ∷ ts) = t.allocation_percentage + total_allocation ts

  -- The target lies on the signal's side of its entry and of the current price.
  abbrev pub LiesBeyond : Direction → W → W → W → Type 0
  LiesBeyond long entry price p = (lt entry p ≡ true) × (lt price p ≡ true)
  LiesBeyond short entry price p = (lt p entry ≡ true) × (lt p price ≡ true)

  is_opposing-LiesBeyond :
      (dir : Direction) (entry price : W) (l : LiquidityLevel W)
      → is_opposing dir entry price l ≡ true
      → LiesBeyond dir entry price l.price
  unfolding is_opposing
  is_opposing-LiesBeyond long entry price l e = ground arith
  is_opposing-LiesBeyond short entry price l e = ground arith

  targets_from-All :
      (P : W → Type 0) (i : ℕ) (ls : List (LiquidityLevel W))
      → All (λ l. P l.price) ls
      → All (λ t. P t.price) (targets_from i ls)
  unfolding targets_from
  targets_from-All P i [] h = tt
  targets_from-All P i (l ∷ ls) (h, hs) = (h, targets_from-All P (i + 1) ls hs)

  -- The shares that one, two and three targets close: only three close the whole position.
  pub data Shares : List (TakeProfit W) → Type 0 where
    fallback : {p : W} → Shares (target 1 p 100 swing_high ∷ [])
    one : {t : TakeProfit W} → total_allocation (t ∷ []) ≡ 25 → Shares (t ∷ [])
    two : {t u : TakeProfit W} → total_allocation (t ∷ u ∷ []) ≡ 50 → Shares (t ∷ u ∷ [])
    three :
        {t u v : TakeProfit W} → total_allocation (t ∷ u ∷ v ∷ []) ≡ 100 → Shares (t ∷ u ∷ v ∷ [])

  abbrev or_fallback : Direction → DealingRange W → List (TakeProfit W) → List (TakeProfit W)
  or_fallback dir dr [] = target 1 (if_long dir dr.high dr.low) 100 swing_high ∷ []
  or_fallback dir dr (t ∷ ts) = t ∷ ts

  shares :
      (dir : Direction) (dr : DealingRange W) (ls : List (LiquidityLevel W))
      → Shares (or_fallback dir dr (targets_from 0 (take 3 ls)))
  unfolding targets_from
  shares dir dr [] = fallback
  shares dir dr (a ∷ []) = one refl
  shares dir dr (a ∷ b ∷ []) = two refl
  shares dir dr (a ∷ b ∷ c ∷ ls) = three refl

  module _ (dir : Direction) (entry price : W) (liq : List (LiquidityLevel W))
      (dr : DealingRange W) where
    levels : List (LiquidityLevel W)
    levels = opposing_levels dir entry price liq

    take_profits_of-eq :
        take_profits_of dir entry price liq dr ≡ or_fallback dir dr (targets_from 0 (take 3 levels))
    unfolding take_profits_of levels
    take_profits_of-eq = same (targets_from 0 (take 3 (opposing_levels dir entry price liq)))
      where
        same :
            (ts : List (TakeProfit W))
            → (elim ts [
              | [] ↦ target 1 (if_long dir dr.high dr.low) 100 swing_high ∷ []
              | t ∷ us ↦ t ∷ us
            ])
              ≡ or_fallback dir dr ts
        same [] = refl
        same (t ∷ ts) = refl

    -- There are one to three targets; a single fallback target or three targets close 100 percent
    -- of the position, one opposing level closes 25 and two close 50.
    pub take_profits_of-Shares : Shares (take_profits_of dir entry price liq dr)
    take_profits_of-Shares = rw take_profits_of-eq (shares dir dr levels)

    levels-LiesBeyond : All (λ l. LiesBeyond dir entry price l.price) (take 3 levels)
    unfolding levels opposing_levels
    levels-LiesBeyond = All-of_mem (take 3 levels) (λ l m.
        is_opposing-LiesBeyond dir entry price l (
          All-mem (λ x. is_opposing dir entry price x ≡ true)
            (filter (is_opposing dir entry price) liq)
            (filter-All (is_opposing dir entry price) liq)
            (mem-sort_by (nearer dir) (filter (is_opposing dir entry price) liq)
              (mem-take 3 levels m))))

    -- Every target lies beyond the entry and beyond the current price on the signal's side, unless
    -- it is the only one and is the end of the dealing range on that side.
    pub take_profits_of-LiesBeyond :
        All (λ t. LiesBeyond dir entry price t.price) (take_profits_of dir entry price liq dr)
        ⊎ (take_profits_of dir entry price liq dr
            ≡ target 1 (if_long dir dr.high dr.low) 100 swing_high ∷ [])
    take_profits_of-LiesBeyond = rw take_profits_of-eq (
        split (targets_from 0 (take 3 levels))
          (targets_from-All (LiesBeyond dir entry price) 0 (take 3 levels) levels-LiesBeyond))
      where
        split :
            (ts : List (TakeProfit W))
            → All (λ t. LiesBeyond dir entry price t.price) ts
            → All (λ t. LiesBeyond dir entry price t.price) (or_fallback dir dr ts)
              ⊎ (or_fallback dir dr ts ≡ target 1 (if_long dir dr.high dr.low) 100 swing_high ∷ [])
        split [] h = inr refl
        split (t ∷ ts) h = inl h
