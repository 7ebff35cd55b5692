-- ===== src/Liquidity/Interaction.antt =====
-- packages/trading-core/src/liquidity.ts: swept and broken levels.
use mmxm.Prelude.{
  ℕ, zero, suc, ◌<◌, ◌≡◌, refl, sym, Bool, true, false, Option, none, some, List, [], ◌∷◌, ◌++◌,
  arith, get_elem?, Bool-cases, Option-cases, inl, inr, ◌⊎◌, ap, ◌∙◌,
}
use mathlib.Core.Option.{some-injective}
use mmxm.Double.{Double}
use mmxm.Types.{Candle, LiquidityLevel, LiquidityState, touched, swept, broken}
use mmxm.Liquidity.{
  is_high_side, decides, first_touch, counts, interaction_from, classify_level_interaction,
}

abbrev pub IsFinal : LiquidityState → Type 0
IsFinal state = (state ≡ swept) ⊎ (state ≡ broken)

module _ {W : Type 0} ⦃d : Double W⦄ where
  open d use {add, sub, mul, lt, le}

  -- The code's test of a sweep: the wick is beyond the level by more than the penetration (the
  -- source's comment asks for as much or more) and the close is back on the level's side. A break is
  -- a close beyond the level.
  abbrev pub Swept : Bool → W → W → Candle W → Type 0
  Swept true price pen c = (lt (add price pen) c.high ≡ true) × (lt c.close price ≡ true)
  Swept false price pen c = (lt c.low (sub price pen) ≡ true) × (lt price c.close ≡ true)

  abbrev pub Broken : Bool → W → Candle W → Type 0
  Broken true price c = lt price c.close ≡ true
  Broken false price c = lt c.close price ≡ true

  abbrev pub Shows : LiquidityState → Bool → W → W → Candle W → Type 0
  Shows swept side price pen c = Swept side price pen c
  Shows broken side price pen c = Broken side price c
  Shows _ side price pen c = ⊥

  decides-Shows :
      (side : Bool) (price pen : W) (c : Candle W) (state : LiquidityState)
      → decides side price pen c ≡ some state
      → Shows state side price pen c
  unfolding decides
  decides-Shows true price pen c swept e = ground arith
  decides-Shows true price pen c broken e = ground arith
  decides-Shows true price pen c _ e = ground arith
  decides-Shows false price pen c swept e = ground arith
  decides-Shows false price pen c broken e = ground arith
  decides-Shows false price pen c _ e = ground arith

  decides-none :
      (side : Bool) (price pen : W) (c : Candle W)
      → decides side price pen c ≡ none
      → ¬ (Broken side price c)
  unfolding decides
  decides-none true price pen c e h = ground arith
  decides-none false price pen c e h = ground arith

  -- The candle that settles a level: it counts, it shows the state, and no candle before it that
  -- counts closes beyond the level.
  pub record Settles (level : LiquidityLevel W) (pen : W) (cs : List (Candle W))
      (state : LiquidityState) (at : ℕ) : Type 0 where
    pub position : ℕ
    pub candle : Candle W
    pub found : get_elem? cs position ≡ some candle
    pub time : candle.open_time ≡ at
    pub eligible : counts level candle ≡ true
    pub shows : Shows state (is_high_side level.type) level.price pen candle
    pub unbroken :
        (j : ℕ) (c : Candle W)
        → j < position
        → get_elem? cs j ≡ some c
        → counts level c ≡ true
        → ¬ (Broken (is_high_side level.type) level.price c)

  module _ (level : LiquidityLevel W) (pen : W) where
    Settles-cons :
        (c : Candle W) (cs : List (Candle W)) (state : LiquidityState) (at : ℕ)
        → (counts level c ≡ true → ¬ (Broken (is_high_side level.type) level.price c))
        → Settles level pen cs state at
        → Settles level pen (c ∷ cs) state at
    Settles-cons c cs state at h s = record {
      position = suc s.position;
      candle = s.candle;
      found = s.found;
      time = s.time;
      eligible = s.eligible;
      shows = s.shows;
      unbroken = earlier;
    }
      where
        earlier :
            (j : ℕ) (o : Candle W)
            → j < suc s.position
            → get_elem? (c ∷ cs) j ≡ some o
            → counts level o ≡ true
            → ¬ (Broken (is_high_side level.type) level.price o)
        earlier zero o lt e k =
            let same = some-injective c o e in rw (← same) (h (rw (sym same) at k))
        earlier (suc j) o lt e k = s.unbroken j o (omega arith) e k

    interaction_from-Settles :
        (cs : List (Candle W)) (touched_at : Option ℕ) (state : LiquidityState) (at : Option ℕ)
        → IsFinal state
        → ¬ (IsFinal level.state)
        → interaction_from level pen cs touched_at ≡ (state, at)
        → (t : ℕ) × (at ≡ some t) × Settles level pen cs state t
    unfolding interaction_from
    interaction_from-Settles [] none state at f n e = absurd (n (rw (← ap (λ r. r.0) e) at f))
    interaction_from-Settles [] (some t) state at f n e =
        absurd (not_touched (rw (← ap (λ r. r.0) e) at f))
      where
        not_touched : ¬ (IsFinal touched)
        not_touched (inl h) = cc
        not_touched (inr h) = cc
    interaction_from-Settles (c ∷ cs) touched_at state at f n e =
        let side = is_high_side level.type in
        elim (Bool-cases (counts level c)) [
          | inr skipped ↦
              let (t, same, s) =
                interaction_from-Settles cs touched_at state at f n
                  (rw (skipped, interaction_from) at e) in
              (t, same, Settles-cons c cs state t (λ h. cc) s)
          | inl eligible ↦ elim (Option-cases (decides side level.price pen c)) [
            | inl undecided ↦
                let (t, same, s) =
                  interaction_from-Settles cs (first_touch side level.price c touched_at) state at f
                    n (rw (eligible, undecided, interaction_from) at e) in
                (
                  t,
                  same,
                  Settles-cons c cs state t (λ _. decides-none side level.price pen c undecided) s,
                )
            | inr (s, decided) ↦
                let now = rw (eligible, decided, interaction_from) at e in
                (
                  c.open_time,
                  sym (ap (λ r. r.1) now),
                  record {
                    position = 0;
                    candle = c;
                    found = refl;
                    time = refl;
                    eligible = eligible;
                    shows =
                        decides-Shows side level.price pen c state
                          (decided ∙ ap some (ap (λ r. r.0) now));
                    unbroken = λ j o lt _ _ _. absurd (omega arith);
                  },
                )
          ]
        ]

    interaction_from-append :
        (cs more : List (Candle W)) (touched_at : Option ℕ) (state : LiquidityState) (at : Option ℕ)
        → IsFinal state
        → ¬ (IsFinal level.state)
        → interaction_from level pen cs touched_at ≡ (state, at)
        → interaction_from level pen (cs ++ more) touched_at ≡ (state, at)
    unfolding interaction_from
    interaction_from-append [] more none state at f n e = absurd (n (rw (← ap (λ r. r.0) e) at f))
    interaction_from-append [] more (some t) state at f n e =
        absurd (not_touched (rw (← ap (λ r. r.0) e) at f))
      where
        not_touched : ¬ (IsFinal touched)
        not_touched (inl h) = cc
        not_touched (inr h) = cc
    interaction_from-append (c ∷ cs) more touched_at state at f n e =
        let side = is_high_side level.type in
        elim (Bool-cases (counts level c)) [
          | inr skipped ↦
              rw (skipped, interaction_from)
                (interaction_from-append cs more touched_at state at f n
                  (rw (skipped, interaction_from) at e))
          | inl eligible ↦ elim (Option-cases (decides side level.price pen c)) [
            | inl undecided ↦
                rw (eligible, undecided, interaction_from)
                  (interaction_from-append cs more (first_touch side level.price c touched_at) state
                    at f n (rw (eligible, undecided, interaction_from) at e))
            | inr (s, decided) ↦
                rw (eligible, decided, interaction_from)
                  (rw (eligible, decided, interaction_from) at e)
          ]
        ]

  module _ (level : LiquidityLevel W) (candles : List (Candle W)) (penetration atr_value : W)
      (state : LiquidityState) (at : Option ℕ) where
    -- If a level that is neither swept nor broken yet is reported as swept (broken), then at the
    -- reported time a closed candle that counts for it has its wick beyond the level by more than
    -- the penetration and its close back on the level's side (its close beyond the level), and no
    -- candle before that one that counts closes beyond the level.
    pub classify-Settles :
        IsFinal state
        → ¬ (IsFinal level.state)
        → classify_level_interaction level candles penetration atr_value ≡ (state, at)
        → (t : ℕ) × (at ≡ some t) × Settles level (mul penetration atr_value) candles state t
    unfolding classify_level_interaction
    classify-Settles f n e =
        interaction_from-Settles level (mul penetration atr_value) candles none state at f n e

    -- Such a verdict is final: appending candles changes neither the state nor its time.
    pub classify-append :
        (more : List (Candle W))
        → IsFinal state
        → ¬ (IsFinal level.state)
        → classify_level_interaction level candles penetration atr_value ≡ (state, at)
        → classify_level_interaction level (candles ++ more) penetration atr_value ≡ (state, at)
    unfolding classify_level_interaction
    classify-append more f n e =
        interaction_from-append level (mul penetration atr_value) candles more none state at f n e
