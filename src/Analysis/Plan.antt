-- ===== src/Analysis/Plan.antt =====
-- apps/worker/src/analyzer.ts, `runAnalysis`: when the plan of a language model is taken, and what it is.
use mmxm.Prelude.{
  ℕ, ◌-◌, ◌*◌, ◌≤◌, ◌≡◌, ◌↔◌, true, ap, refl, sym, ◌⊎◌, inl, inr, false, Option, none, some, List,
  [], ◌∷◌, String, ltb, length, last, slice_last, take, All, Bool-cases, arith,
}
use mmxm.Double.{Double, of_ℕ}
use mmxm.Types.{Candle, m5, m15, Direction, XauusdSignal, MmxmAnalysisInput}
use mmxm.Engine.{analyze}
use mmxm.Engine.Outcome.{Run, go, stop, thrown, Refusal}
use mmxm.Analysis.{
  LastTick, LlmSignal, LlmTarget, LlmPlan, market_closed, few_candles, entry_too_far, by_llm,
  is_stale_market, targets_from, or_zero, live_price, atr15, is_too_far, plan_of, weigh_direction,
  weigh_answer, after_engine, find_signal,
}

-- The levels are 1, 2 and 3 from the first on, and close 25, 25 and 50 percent.
abbrev IsShare : {W : Type 0} → LlmTarget W → Type 0
IsShare t =
    ((t.level ≡ 1) × (t.allocation_percentage ≡ 25))
    ⊎ (((t.level ≡ 2) × (t.allocation_percentage ≡ 25))
        ⊎ ((t.level ≡ 3) × (t.allocation_percentage ≡ 50)))

module _ {W : Type 0} where
  targets-IsShare : (ps : List W) → All IsShare (targets_from 0 (take 3 ps))
  targets-IsShare [] = tt
  targets-IsShare (p ∷ []) = (inl (refl, refl), tt)
  targets-IsShare (p ∷ q ∷ []) = (inl (refl, refl), (inr (inl (refl, refl)), tt))
  targets-IsShare (p ∷ q ∷ r ∷ ps) =
      (inl (refl, refl), (inr (inl (refl, refl)), (inr (inr (refl, refl)), tt)))

module _ {W : Type 0} ⦃d : Double W⦄ where
  open d use {abs, sub, mul, lt, lit}

  -- The entry is within 1.5 ATR of the live price, where there is a live price and the plan has a risk.
  abbrev pub IsReachable : W → LlmPlan W → W → Type 0
  IsReachable atr plan live =
      lt (of_ℕ 0) live ≡ true
      → lt (of_ℕ 0) (abs (sub plan.preferred_entry plan.stop_loss)) ≡ true
      → lt (mul (lit 15 1) atr) (abs (sub plan.preferred_entry live)) ≡ false

  -- What holds where a model's plan is found: the newest M15 candle is at most an hour old, there are
  -- candles enough, the engine refused, and the answer has a direction and an entry that the live price
  -- can reach; the plan is the answer's.
  pub record IsLlmPlan (input : MmxmAnalysisInput W) (version : String) (now : ℕ) (uuid : String)
      (tick : Option (LastTick W)) (ask : List (Candle W) → W → Option (LlmSignal W))
      (plan : LlmPlan W) : Type 0 where
    pub newest : Candle W
    pub is_newest : last (input.candles m15) ≡ some newest
    pub recent : now - newest.open_time ≤ 60 * 60_000
    pub enough_m15 : 30 ≤ length (input.candles m15)
    pub enough_m5 : 50 ≤ length (input.candles m5)
    pub refusal : Refusal
    pub engine_refused : analyze input version now uuid ≡ stop refusal
    pub answer : LlmSignal W
    pub is_answer :
        ask (slice_last 12 (input.candles m15)) (live_price tick (some newest)) ≡ some answer
    pub direction : Direction
    pub has_direction : answer.direction ≡ some direction
    pub reachable : IsReachable (atr15 (input.candles m15)) plan (live_price tick (some newest))
    pub is_plan : plan ≡ plan_of now direction answer
    pub shares : All IsShare plan.take_profits

  weigh_direction-by_llm :
      (now : ℕ) (cs : List (Candle W)) (live : W) (s : LlmSignal W) (o : Option Direction)
      (plan : LlmPlan W)
      → (weigh_direction now cs live s o).0 ≡ by_llm plan
      → (direction : Direction) × (o ≡ some direction)
        × (is_too_far
              (or_zero s.entry)
              (abs (sub (or_zero s.entry) (or_zero s.stop_loss)))
              live
              (atr15 cs)
            ≡ false)
        × (plan_of now direction s ≡ plan)
  unfolding weigh_direction
  weigh_direction-by_llm now cs live s none plan e = cc
  weigh_direction-by_llm now cs live s (some direction) plan e =
      let test =
        is_too_far (or_zero s.entry) (abs (sub (or_zero s.entry) (or_zero s.stop_loss))) live
          (atr15 cs) in
      elim (Bool-cases test) [
        | inl far ↦ let bad : entry_too_far ≡ by_llm plan = rw far at e in cc
        | inr near ↦
            let same : by_llm (plan_of now direction s) ≡ by_llm plan = rw near at e in
            (direction, refl, near, cc)
      ]

  weigh_answer-by_llm :
      (now : ℕ) (cs : List (Candle W)) (live : W) (o : Option (LlmSignal W)) (plan : LlmPlan W)
      → (weigh_answer now cs live o).0 ≡ by_llm plan
      → (s : LlmSignal W) × (o ≡ some s)
        × ((weigh_direction now cs live s s.direction).0 ≡ by_llm plan)
  unfolding weigh_answer
  weigh_answer-by_llm now cs live none plan e = cc
  weigh_answer-by_llm now cs live (some s) plan e = (s, refl, e)

  after_engine-by_llm :
      (now : ℕ) (cs : List (Candle W)) (tick : Option (LastTick W))
      (ask : List (Candle W) → W → Option (LlmSignal W)) (run : Run (XauusdSignal W))
      (plan : LlmPlan W)
      → (after_engine now cs tick ask run).0 ≡ by_llm plan
      → (why : Refusal) × (run ≡ stop why)
        × ((weigh_answer now cs
              (live_price tick (last cs))
              (ask (slice_last 12 cs) (live_price tick (last cs)))).0
            ≡ by_llm plan)
  unfolding after_engine
  after_engine-by_llm now cs tick ask (go sig) plan e = cc
  after_engine-by_llm now cs tick ask (stop why) plan e = (why, refl, e)
  after_engine-by_llm now cs tick ask thrown plan e = cc

  -- The tests before the engine have passed.
  find_signal-by_llm :
      (input : MmxmAnalysisInput W) (version : String) (now : ℕ) (uuid : String)
      (tick : Option (LastTick W)) (ask : List (Candle W) → W → Option (LlmSignal W))
      (plan : LlmPlan W)
      → (find_signal input version now uuid tick ask).0 ≡ by_llm plan
      → (is_stale_market now (last (input.candles m15)) ≡ false)
        × (ltb (length (input.candles m15)) 30 ≡ false)
        × (ltb (length (input.candles m5)) 50 ≡ false)
        × ((after_engine now (input.candles m15) tick ask (analyze input version now uuid)).0
            ≡ by_llm plan)
  unfolding find_signal
  find_signal-by_llm input version now uuid tick ask plan e =
      elim (Bool-cases (is_stale_market now (last (input.candles m15)))) [
        | inl stale ↦ let bad : market_closed ≡ by_llm plan = rw stale at e in cc
        | inr fresh ↦ elim (Bool-cases (ltb (length (input.candles m15)) 30)) [
          | inl few ↦ let bad : few_candles ≡ by_llm plan = rw (fresh, few) at e in cc
          | inr many ↦ elim (Bool-cases (ltb (length (input.candles m5)) 50)) [
            | inl few ↦ let bad : few_candles ≡ by_llm plan = rw (fresh, many, few) at e in cc
            | inr enough ↦ (fresh, many, enough, rw (fresh, many, enough) at e)
          ]
        ]
      ]

  not_stale :
      (now : ℕ) (o : Option (Candle W))
      → is_stale_market now o ≡ false
      → (c : Candle W) × (o ≡ some c) × (now - c.open_time ≤ 60 * 60_000)
  not_stale now none e = cc
  not_stale now (some c) e = (c, refl, ground arith)

  is_too_far-near :
      (atr : W) (plan : LlmPlan W) (live : W)
      → IsReachable atr plan live
      → is_too_far plan.preferred_entry (abs (sub plan.preferred_entry plan.stop_loss)) live atr
        ≡ false
  unfolding is_too_far
  is_too_far-near atr plan live h = elim (Bool-cases (lt (of_ℕ 0) live)) [
    | inr e ↦ rw e refl
    | inl e ↦ elim (Bool-cases (lt (of_ℕ 0) (abs (sub plan.preferred_entry plan.stop_loss)))) [
      | inr k ↦ rw (e, k) refl
      | inl k ↦ rw (e, k, h e k) refl
    ]
  ]

  IsReachable-of_near :
      (atr : W) (plan : LlmPlan W) (live : W)
      → is_too_far plan.preferred_entry (abs (sub plan.preferred_entry plan.stop_loss)) live atr
        ≡ false
      → IsReachable atr plan live
  unfolding is_too_far
  IsReachable-of_near atr plan live near e k = rw (e, k) at near

  IsLlmPlan-of_by_llm :
      (input : MmxmAnalysisInput W) (version : String) (now : ℕ) (uuid : String)
      (tick : Option (LastTick W)) (ask : List (Candle W) → W → Option (LlmSignal W))
      (plan : LlmPlan W)
      → (find_signal input version now uuid tick ask).0 ≡ by_llm plan
      → IsLlmPlan input version now uuid tick ask plan
  unfolding plan_of
  IsLlmPlan-of_by_llm input version now uuid tick ask plan e =
      let (fresh, many, enough, engine) =
        find_signal-by_llm input version now uuid tick ask plan e in
      let (c, newest, recent) = not_stale now (last (input.candles m15)) fresh in
      let (why, refused, weighed) =
        after_engine-by_llm now (input.candles m15) tick ask (analyze input version now uuid) plan
          engine in
      let (s, answer, directed) = weigh_answer-by_llm now (input.candles m15) _ _ plan weighed in
      let (direction, has, near, same) =
        weigh_direction-by_llm now (input.candles m15) _ s s.direction plan directed in
      record {
        newest = c;
        is_newest = newest;
        recent = recent;
        enough_m15 = ground arith;
        enough_m5 = ground arith;
        refusal = why;
        engine_refused = refused;
        answer = s;
        is_answer = rw newest at answer;
        direction = direction;
        has_direction = has;
        reachable = IsReachable-of_near _ plan _ (rw (← same, ← newest) near);
        is_plan = sym same;
        shares = rw (← same) (targets-IsShare s.take_profits);
      }

  find_signal-by_plan :
      (input : MmxmAnalysisInput W) (version : String) (now : ℕ) (uuid : String)
      (tick : Option (LastTick W)) (ask : List (Candle W) → W → Option (LlmSignal W))
      (plan : LlmPlan W)
      → IsLlmPlan input version now uuid tick ask plan
      → (find_signal input version now uuid tick ask).0 ≡ by_llm plan
  unfolding find_signal after_engine weigh_answer weigh_direction plan_of
  find_signal-by_plan input version now uuid tick ask plan p =
      let fresh : ltb (60 * 60_000) (now - p.newest.open_time) ≡ false = ground (arith, p.recent) in
      let many : ltb (length (input.candles m15)) 30 ≡ false = ground (arith, p.enough_m15) in
      let enough : ltb (length (input.candles m5)) 50 ≡ false = ground (arith, p.enough_m5) in
      let near : is_too_far (or_zero p.answer.entry)
            (abs (sub (or_zero p.answer.entry) (or_zero p.answer.stop_loss)))
            (live_price tick (some p.newest)) (atr15 (input.candles m15))
          ≡ false =
        rw
          (
            ← ap (λ (q : LlmPlan W). q.preferred_entry) p.is_plan,
            ← ap (λ (q : LlmPlan W). q.stop_loss) p.is_plan,
          )
          (is_too_far-near _ plan _ p.reachable) in
      rw
        (
          p.is_newest, fresh, many, enough, p.engine_refused, after_engine, p.is_newest,
          p.is_answer, weigh_answer, p.has_direction, weigh_direction, p.is_newest, near,
        )
        (ap by_llm (sym p.is_plan))

  -- The plan of a language model is found just where the newest M15 candle is at most an hour old,
  -- there are 30 M15 and 50 M5 candles, the engine refuses, the model answers with a direction, and the
  -- entry is within 1.5 ATR of the live price or the live price or the distance of the entry from the
  -- stop is not positive; and the plan is that answer's, with shares of 25, 25 and 50 percent.
  pub find_signal-IsLlmPlan :
      (input : MmxmAnalysisInput W) (version : String) (now : ℕ) (uuid : String)
      (tick : Option (LastTick W)) (ask : List (Candle W) → W → Option (LlmSignal W))
      (plan : LlmPlan W)
      → ((find_signal input version now uuid tick ask).0 ≡ by_llm plan)
        ↔ IsLlmPlan input version now uuid tick ask plan
  find_signal-IsLlmPlan input version now uuid tick ask plan = (
    IsLlmPlan-of_by_llm input version now uuid tick ask plan,
    find_signal-by_plan input version now uuid tick ask plan,
  )
