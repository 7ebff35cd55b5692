-- ===== src/Zones/Gaps.antt =====
-- packages/trading-core/src/zones.ts: the reported fair value gaps and their mitigation.
use mmxm.Prelude.{
  ℕ, suc, ◌+◌, ◌-◌, ◌≤◌, ◌≡◌, refl, sym, ◌∙◌, Bool, true, false, not, ◌&&◌, ◌||◌, some, List, [],
  ◌∷◌, arith, if◌then◌else◌, drop, get_elem?, any, All, Bool-cases, inl, inr, ◌↔◌,
}
use mmxm.Prelude.Loops.{
  All-append, All-map, any_sound, any_complete, get_elem?-drop, All-map', All-map₂,
}
use mmxm.Double.{Double}
use mmxm.Types.{Candle, Side, bull, bear, Fvg}
use mmxm.Zones.{gap, gaps_at, gaps_from, fills, mitigate, detect_fvgs}

module _ {W : Type 0} ⦃d : Double W⦄ where
  open d use {sub, mul, lt, le}

  -- The edges of the gap in its three candles, and that they are apart by at least `min_size`.
  abbrev pub Edges : W → Fvg W → Side → Candle W → Candle W → Type 0
  Edges min_size f bull a c =
      (f.low ≡ a.high)
      × (f.high ≡ c.low)
      × (lt a.high c.low ≡ true)
      × (le min_size (sub c.low a.high) ≡ true)
  Edges min_size f bear a c =
      (f.low ≡ c.high)
      × (f.high ≡ a.low)
      × (lt c.high a.low ≡ true)
      × (le min_size (sub a.low c.high) ≡ true)

  -- Three neighbouring closed candles, the first at `offset` in a list whose head has the index
  -- `first` in the array, with the gap between the first and the third.
  pub record IsGap (candles : List (Candle W)) (first : ℕ) (min_size : W) (f : Fvg W) : Type 0 where
    pub offset : ℕ
    pub before : Candle W
    pub middle : Candle W
    pub after : Candle W
    pub position : f.formed_at_index ≡ first + offset + 1
    pub found_before : get_elem? candles offset ≡ some before
    pub found_middle : get_elem? candles (suc offset) ≡ some middle
    pub found_after : get_elem? candles (suc (suc offset)) ≡ some after
    pub closed : (before.is_closed ≡ true) × (middle.is_closed ≡ true) × (after.is_closed ≡ true)
    pub edges : Edges min_size f f.direction before after

  module _ (min_size : W) (i : ℕ) (a b c : Candle W) (cs : List (Candle W)) where
    at_head :
        (direction : Side) (low high : W)
        → (a.is_closed ≡ true) × (b.is_closed ≡ true) × (c.is_closed ≡ true)
        → Edges min_size (gap direction low high (suc i) a b c) direction a c
        → IsGap (a ∷ b ∷ c ∷ cs) i min_size (gap direction low high (suc i) a b c)
    at_head direction low high closed edges = record {
      offset = 0;
      before = a;
      middle = b;
      after = c;
      position = omega arith;
      found_before = refl;
      found_middle = refl;
      found_after = refl;
      closed = closed;
      edges = edges;
    }

    gaps_at-IsGap : All (IsGap (a ∷ b ∷ c ∷ cs) i min_size) (gaps_at min_size (suc i) a b c)
    unfolding gaps_at
    gaps_at-IsGap = elim (Bool-cases (not a.is_closed || not b.is_closed || not c.is_closed)) [
      | inl e ↦ rw e tt
      | inr e ↦
          let closed : (a.is_closed ≡ true) × (b.is_closed ≡ true) × (c.is_closed ≡ true) =
            ground arith in
          let up = lt a.high c.low && le min_size (sub c.low a.high) in
          let down = lt c.high a.low && le min_size (sub a.low c.high) in
          rw e (
            All-append (IsGap (a ∷ b ∷ c ∷ cs) i min_size)
              (if up then gap bull a.high c.low (suc i) a b c ∷ [] else [])
              (if down then gap bear c.high a.low (suc i) a b c ∷ [] else [])
              (elim (Bool-cases up) [
                | inl h ↦
                    rw h (
                      at_head bull a.high c.low closed (refl, refl, ground arith, ground arith),
                      tt,
                    )
                | inr h ↦ rw h tt
              ])
              (elim (Bool-cases down) [
                | inl h ↦
                    rw h (
                      at_head bear c.high a.low closed (refl, refl, ground arith, ground arith),
                      tt,
                    )
                | inr h ↦ rw h tt
              ]))
    ]

  IsGap-cons :
      (min_size : W) (i : ℕ) (a : Candle W) (cs : List (Candle W)) (f : Fvg W)
      → IsGap cs (suc i) min_size f
      → IsGap (a ∷ cs) i min_size f
  IsGap-cons min_size i a cs f g = record {
    offset = suc g.offset;
    before = g.before;
    middle = g.middle;
    after = g.after;
    position = let p = g.position in omega arith;
    found_before = g.found_before;
    found_middle = g.found_middle;
    found_after = g.found_after;
    closed = g.closed;
    edges = g.edges;
  }

  gaps_from-IsGap :
      (min_size : W) (i : ℕ) (cs : List (Candle W))
      → All (IsGap cs i min_size) (gaps_from min_size (suc i) cs)
  unfolding gaps_from
  gaps_from-IsGap min_size i (a ∷ b ∷ c ∷ cs) =
      All-append (IsGap (a ∷ b ∷ c ∷ cs) i min_size) (gaps_at min_size (suc i) a b c)
        (gaps_from min_size (suc (suc i)) (b ∷ c ∷ cs)) (gaps_at-IsGap min_size i a b c cs)
        (All-map' (gaps_from min_size (suc (suc i)) (b ∷ c ∷ cs))
          (IsGap-cons min_size i a (b ∷ c ∷ cs)) (gaps_from-IsGap min_size (suc i) (b ∷ c ∷ cs)))
  gaps_from-IsGap min_size i [] = tt
  gaps_from-IsGap min_size i (a ∷ []) = tt
  gaps_from-IsGap min_size i (a ∷ b ∷ []) = tt

  -- A closed candle behind the gap's third one trades back into it.
  abbrev pub Filled : List (Candle W) → Fvg W → Type 0
  Filled candles f =
      (k : ℕ) × (c : Candle W) × (f.formed_at_index + 2 ≤ k)
      × (get_elem? candles k ≡ some c)
      × (c.is_closed ≡ true)
      × (fills f.direction f.low f.high c ≡ true)

  pub record IsFvg (candles : List (Candle W)) (min_size : W) (f : Fvg W) : Type 0 where
    pub is_gap : IsGap candles 0 min_size f
    pub mitigated_iff : (f.mitigated ≡ true) ↔ Filled candles f

  module _ (candles : List (Candle W)) (f : Fvg W) where
    abbrev refills : Candle W → Bool
    refills c = c.is_closed && fills f.direction f.low f.high c

    Filled-of_any : any refills (drop (f.formed_at_index + 2) candles) ≡ true → Filled candles f
    Filled-of_any e =
        let (j, c, found, h) = any_sound refills (drop (f.formed_at_index + 2) candles) e in
        (
          f.formed_at_index + 2 + j,
          c,
          omega arith,
          sym (get_elem?-drop (f.formed_at_index + 2) candles j) ∙ found,
          ground arith,
          ground arith,
        )

    any_of_Filled : Filled candles f → any refills (drop (f.formed_at_index + 2) candles) ≡ true
    any_of_Filled (k, c, h, found, closed, back) =
        let start = f.formed_at_index + 2 in
        let same : start + (k - start) ≡ k = omega arith in
        any_complete refills (drop start candles) (k - start) {x = c}
          (get_elem?-drop start candles (k - start) ∙ rw same found) (ground arith)

  gaps_from-fresh :
      (min_size : W) (i : ℕ) (cs : List (Candle W))
      → All (λ f. f.mitigated ≡ false) (gaps_from min_size i cs)
  unfolding gaps_from gaps_at
  gaps_from-fresh min_size i (a ∷ b ∷ c ∷ cs) =
      All-append (λ f. f.mitigated ≡ false) (gaps_at min_size i a b c)
        (gaps_from min_size (suc i) (b ∷ c ∷ cs)) (ground arith)
        (gaps_from-fresh min_size (suc i) (b ∷ c ∷ cs))
  gaps_from-fresh min_size i [] = tt
  gaps_from-fresh min_size i (a ∷ []) = tt
  gaps_from-fresh min_size i (a ∷ b ∷ []) = tt

  mitigate-IsFvg :
      (candles : List (Candle W)) (min_size : W) (f : Fvg W)
      → f.mitigated ≡ false
      → IsGap candles 0 min_size f
      → IsFvg candles min_size (mitigate candles f)
  unfolding mitigate
  mitigate-IsFvg candles min_size f fresh g =
      elim (Bool-cases (any (refills candles f) (drop (f.formed_at_index + 2) candles))) [
        | inl e ↦ rw e (record {
          is_gap = record {
            offset = g.offset;
            before = g.before;
            middle = g.middle;
            after = g.after;
            position = g.position;
            found_before = g.found_before;
            found_middle = g.found_middle;
            found_after = g.found_after;
            closed = g.closed;
            edges = same_edges f.direction g.edges;
          };
          mitigated_iff = ((λ _. Filled-of_any candles f e), (λ _. refl));
        })
        | inr e ↦ rw e (record {
          is_gap = g;
          mitigated_iff = ((λ h. cc), (λ h. cc (any_of_Filled candles f h)));
        })
      ]
    where
      same_edges :
          (s : Side)
          → Edges min_size f s g.before g.after
          → Edges min_size (record f { mitigated = true }) s g.before g.after
      same_edges bull h = h
      same_edges bear h = h

  -- Every gap of `detectFvgs` lies between the outer two of three neighbouring closed candles that
  -- are apart by more than nothing and by at least the minimum size; and it is marked as mitigated
  -- exactly when a later closed candle trades back into it.
  pub detect_fvgs-IsFvg :
      (candles : List (Candle W)) (minimum_fvg_atr atr_value : W)
      → All
          (IsFvg candles (mul minimum_fvg_atr atr_value))
          (detect_fvgs candles minimum_fvg_atr atr_value)
  unfolding detect_fvgs
  detect_fvgs-IsFvg candles minimum_fvg_atr atr_value =
      let min_size = mul minimum_fvg_atr atr_value in
      let gaps = gaps_from min_size 1 candles in
      All-map (IsFvg candles min_size) (mitigate candles) gaps (
        All-map₂ gaps (mitigate-IsFvg candles min_size) (gaps_from-fresh min_size 1 candles)
          (gaps_from-IsGap min_size 0 candles))
