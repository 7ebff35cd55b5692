-- ===== src/Zones/Blocks.antt =====
-- packages/trading-core/src/zones.ts: the reported order blocks.
use mathlib.Core.Option.{some-injective}
use mmxm.Prelude.{
  ℕ, zero, suc, ◌+◌, ◌≤◌, ◌<◌, ◌≡◌, refl, sym, Bool, true, false, not, ◌&&◌, Option, none, some,
  List, arith, if◌then◌else◌, get_elem?, All, Memᴰ, Bool-cases, Option-cases, inl, inr, ◌==◌, ◌∙◌,
  ◌⊎◌,
}
use mmxm.Prelude.Loops.{All-flat_map, All-of_mem}
use mmxm.Double.{Double}
use mmxm.Types.{Candle, Side, bull, bear, OrderBlock}
use mmxm.Measure.{is_bullish, is_bearish}
use mmxm.Zones.{
  down_from, first_result, collect, block, block_at, order_block_of, detect_order_blocks,
}

guarded :
    {A : Type 0} (b : Bool) {o : Option A} {a : A}
    → (if not b then none else o) ≡ some a
    → (b ≡ true) × (o ≡ some a)
guarded true e = (refl, e)
guarded false e = cc

first_result-down_from :
    {B : Type 0} (f : ℕ → Option B) (n m : ℕ) {y : B}
    → first_result f (down_from n m) ≡ some y
    → (j : ℕ) × (j < n) × (n ≤ j + m) × (f j ≡ some y) × ((i : ℕ) → j < i → i < n → f i ≡ none)
first_result-down_from f zero m e = cc
first_result-down_from f (suc n) zero e = cc
first_result-down_from f (suc n) (suc m) {y} e = elim (Option-cases (f n)) [
  | inr (z, here) ↦
      let same : z ≡ y = some-injective z y (rw (here, first_result) at e) in
      (n, omega arith, omega arith, rw (← same) here, λ i p q. absurd (omega arith))
  | inl missed ↦
      let (j, p, q, found, skipped) =
        first_result-down_from f n m (rw (missed, first_result) at e) in
      (j, omega arith, omega arith, found, λ i r s. nearer missed skipped i r s)
]
  where
    nearer :
        {j : ℕ}
        → f n ≡ none
        → ((i : ℕ) → j < i → i < n → f i ≡ none)
        → (i : ℕ) → j < i
        → i < suc n
        → f i ≡ none
    nearer missed skipped i r s = elim (Bool-cases (i == n)) [
      | inl e ↦ let same : i ≡ n = ground arith in rw same missed
      | inr e ↦ skipped i r (ground arith)
    ]

abbrev pub side_of : Bool → Side
side_of true = bull
side_of false = bear

module _ {W : Type 0} ⦃d : Double W⦄ where
  -- The colour opposite to a displacement that is bullish or is not.
  abbrev pub is_opposite : Bool → Candle W → Bool
  is_opposite true c = is_bearish c
  is_opposite false c = is_bullish c

  -- A block of the displacement at `at`: a closed candle of the opposite colour at most three
  -- candles before it, with none nearer to it.
  pub record IsBlockOf (candles : List (Candle W)) (at : ℕ) (o : OrderBlock W) : Type 0 where
    pub displaced : Candle W
    pub source : Candle W
    pub found_displaced : get_elem? candles at ≡ some displaced
    pub found : get_elem? candles o.formed_at_index ≡ some source
    pub closed : (displaced.is_closed ≡ true) × (source.is_closed ≡ true)
    pub before : o.formed_at_index < at
    pub near : at ≤ o.formed_at_index + 3
    pub direction : o.direction ≡ side_of (is_bullish displaced)
    pub opposite : is_opposite (is_bullish displaced) source ≡ true
    pub zone : (o.low ≡ source.low) × (o.high ≡ source.high)
    pub nearest :
        (i : ℕ) (c : Candle W)
        → o.formed_at_index < i
        → i < at
        → get_elem? candles i ≡ some c
        → c.is_closed ≡ true
        → is_opposite (is_bullish displaced) c ≡ false

  block_at-eq :
      (candles : List (Candle W)) (bullish : Bool) (j : ℕ) (c : Candle W)
      → get_elem? candles j ≡ some c
      → block_at candles bullish j ≡ (
          if c.is_closed && is_opposite bullish c then some (block (side_of bullish) j c) else none)
  unfolding block_at
  block_at-eq candles true j c e = rw (e, block_at) (ground arith)
  block_at-eq candles false j c e = rw (e, block_at) (ground arith)

  block_at-some :
      (candles : List (Candle W)) (bullish : Bool) (j : ℕ) {o : OrderBlock W}
      → block_at candles bullish j ≡ some o
      → (c : Candle W) × (get_elem? candles j ≡ some c)
        × (c.is_closed ≡ true)
        × (is_opposite bullish c ≡ true)
        × (o ≡ block (side_of bullish) j c)
  unfolding block_at
  block_at-some candles bullish j {o} e = elim (Option-cases (get_elem? candles j)) [
    | inl missing ↦ cc (rw (missing, block_at) at e)
    | inr (c, found) ↦
        let now = sym (block_at-eq candles bullish j c found) ∙ e in
        (c, found, ground arith, ground arith, ground arith)
  ]

  not_opposite :
      (candles : List (Candle W)) (bullish : Bool) (i : ℕ) (c : Candle W)
      → get_elem? candles i ≡ some c
      → c.is_closed ≡ true
      → block_at candles bullish i ≡ none
      → is_opposite bullish c ≡ false
  not_opposite candles bullish i c found closed e =
      let now = sym (block_at-eq candles bullish i c found) ∙ e in ground arith

  order_block_of-IsBlockOf :
      (candles : List (Candle W)) (di : ℕ) {o : OrderBlock W}
      → order_block_of candles di ≡ some o
      → IsBlockOf candles di o
  unfolding order_block_of
  order_block_of-IsBlockOf candles di {o} e = elim (Option-cases (get_elem? candles di)) [
    | inl missing ↦ cc (rw (missing, order_block_of) at e)
    | inr (c, found) ↦
        let (closed, within) = guarded c.is_closed (rw (found, order_block_of) at e) in
        let bullish = is_bullish c in
        let (j, lt, le, here, skipped) =
          first_result-down_from (block_at candles bullish) di 3 within in
        let (b, found_b, closed_b, opposite, same) = block_at-some candles bullish j here in
        rw same (record {
          displaced = c;
          source = b;
          found_displaced = found;
          found = found_b;
          closed = (closed, closed_b);
          before = lt;
          near = le;
          direction = refl;
          opposite = opposite;
          zone = (refl, refl);
          nearest = λ i x p q at_i closed_x.
              not_opposite candles bullish i x at_i closed_x (skipped i p q);
        })
  ]

  -- Every order block of `detectOrderBlocks` belongs to a displacement of the list and is the
  -- nearest closed candle of the opposite colour before it, at most three candles away.
  pub detect_order_blocks-IsBlockOf :
      (candles : List (Candle W)) (displacement_indices : List ℕ)
      → All
          (λ o. (di : ℕ) × Memᴰ di displacement_indices × IsBlockOf candles di o)
          (detect_order_blocks candles displacement_indices)
  unfolding detect_order_blocks
  detect_order_blocks-IsBlockOf candles displacement_indices =
      All-flat_map _ (collect (order_block_of candles)) displacement_indices (
        All-of_mem displacement_indices
          (λ di m. collected di m (Option-cases (order_block_of candles di))))
    where
      collected :
          (di : ℕ)
          → Memᴰ di displacement_indices
          → (order_block_of candles di ≡ none)
            ⊎ ((o : OrderBlock W) × (order_block_of candles di ≡ some o))
          → All
              (λ o. (at : ℕ) × Memᴰ at displacement_indices × IsBlockOf candles at o)
              (collect (order_block_of candles) di)
      collected di m (inl e) = rw (e, collect) tt
      collected di m (inr (o, e)) =
          rw (e, collect) ((di, m, order_block_of-IsBlockOf candles di e), tt)
