-- ===== src/Worker/Rows.antt =====
-- apps/worker/src/analyzer.ts: the row of a stored signal, with the log of its status.
use mmxm.Prelude.{
  ℕ, Bool, true, false, Option, none, some, List, [], ◌∷◌, map, String, same_text, if◌then◌else◌,
}
use mmxm.Double.{Double, of_ℕ}
use mmxm.Types.{SignalStatus, preliminary, confirmed, MmxmModel, Bias, XauusdSignal, TakeProfit}
use mmxm.Track.{SignalRow, TpLevel, Effect, moved, be_applied}
use mmxm.Gate.{Stored, Candidate}
use mmxm.Analysis.{
  LlmPlan, LlmTarget, Found, market_closed, few_candles, engine_crashed, no_setup, entry_too_far,
  by_engine, by_llm,
}
use mmxm.Notify.{AiVerdict, agree}

-- A row of the log of a signal, with the level of its payload; a status of none is `NONE`.
pub record SignalEvent : Type 0 where
  pub from_status : Option SignalStatus
  pub to_status : SignalStatus
  pub level : Option ℕ

-- `row` has the columns that the tracker uses.
pub record TableRow (W : Type 0) : Type 0 where
  pub row : SignalRow W
  pub mmxm_model : MmxmModel
  pub risk_reward : W
  pub confidence : W
  pub htf_bias : Bias
  pub weights : List W
  pub strategy_version_id : String
  pub ai_verified : Bool
  pub ai_insight : Option AiVerdict
  pub detected_at : ℕ
  pub confirmed_at : Option ℕ
  pub events : List SignalEvent

-- What `sig` is in the code, and whether a language model made it.
pub record Admitted (W : Type 0) : Type 0 where
  pub candidate : Candidate W
  pub llm_generated : Bool
  pub version_id : String

abbrev pub is_agreement : AiVerdict → Bool
is_agreement agree = true
is_agreement _ = false

abbrev pub insight_of : Bool → Option AiVerdict
insight_of true = some agree
insight_of false = none

module _ {W : Type 0} where
  -- The columns that the gate's queries read.
  abbrev pub stored_view : TableRow W → Stored W
  stored_view t = record {
    direction = t.row.direction;
    status = t.row.status;
    preferred_entry = t.row.preferred_entry;
    stop_loss = t.row.stop_loss;
    confidence = t.confidence;
    detected_at = t.detected_at;
  }

  abbrev target_of : TakeProfit W → TpLevel W
  target_of t = record { level = some t.level; price = t.price }

  abbrev llm_target_of : LlmTarget W → TpLevel W
  llm_target_of t = record { level = some t.level; price = t.price }

  -- The data of `prisma.signal.create`. The id is the database's, the times are the clock's.
  unfoldable pub created_row : String → ℕ → Admitted W → TableRow W
  created_row id now a = record {
    row = record {
      id = id;
      direction = a.candidate.direction;
      status = confirmed;
      entry_min = a.candidate.entry_min;
      entry_max = a.candidate.entry_max;
      preferred_entry = a.candidate.preferred_entry;
      stop_loss = a.candidate.stop_loss;
      managed_stop = none;
      take_profits = a.candidate.take_profits;
      expires_at = a.candidate.expires_at;
    };
    mmxm_model = a.candidate.mmxm_model;
    risk_reward = a.candidate.risk_reward_ratio;
    confidence = a.candidate.confidence_score;
    htf_bias = a.candidate.higher_timeframe_bias;
    weights = a.candidate.weights;
    strategy_version_id = a.version_id;
    ai_verified = a.llm_generated;
    ai_insight = insight_of a.llm_generated;
    detected_at = now;
    confirmed_at = some now;
    events =
        record { from_status = none; to_status = preliminary; level = none }
        ∷ record { from_status = some preliminary; to_status = confirmed; level = none }
        ∷ [];
  }

  -- `events: { create: … }` of the transitions in a list of effects.
  unfoldable pub events_of : List (Effect W) → List SignalEvent
  events_of [] = []
  events_of (moved from to event level ∷ es) =
      record { from_status = some from; to_status = to; level = level } ∷ events_of es
  events_of (be_applied price ∷ es) = events_of es

  -- `prisma.signal.update({ where: { id } … })` of the insight.
  unfoldable pub with_insight : String → AiVerdict → TableRow W → TableRow W
  with_insight id verdict t =
      if same_text t.row.id id
      then record t { ai_insight = some verdict; ai_verified = is_agreement verdict }
      else t

module _ {W : Type 0} ⦃d : Double W⦄ where
  abbrev pub of_signal : XauusdSignal W → Candidate W
  of_signal s = record {
    direction = s.direction;
    mmxm_model = s.mmxm_model;
    entry_min = s.entry_min;
    entry_max = s.entry_max;
    preferred_entry = s.preferred_entry;
    stop_loss = s.stop_loss;
    take_profits = map target_of s.take_profits;
    risk_reward_ratio = s.risk_reward_ratio;
    confidence_score = of_ℕ s.confidence_score;
    higher_timeframe_bias = s.higher_timeframe_bias;
    weights = map (λ r. of_ℕ r.weight) s.reasons;
    expires_at = s.expires_at;
  }

  abbrev pub of_plan : LlmPlan W → Candidate W
  of_plan p = record {
    direction = p.direction;
    mmxm_model = p.mmxm_model;
    entry_min = p.entry_min;
    entry_max = p.entry_max;
    preferred_entry = p.preferred_entry;
    stop_loss = p.stop_loss;
    take_profits = map llm_target_of p.take_profits;
    risk_reward_ratio = p.risk_reward_ratio;
    confidence_score = p.confidence_score;
    higher_timeframe_bias = p.higher_timeframe_bias;
    weights = p.weights;
    expires_at = p.expires_at;
  }

  -- The signal that goes to the gate, and whether a language model made it.
  pub candidate_of : Found W → Option (Candidate W × Bool)
  candidate_of (by_engine s) = some (of_signal s, false)
  candidate_of (by_llm p) = some (of_plan p, true)
  candidate_of market_closed = none
  candidate_of few_candles = none
  candidate_of engine_crashed = none
  candidate_of no_setup = none
  candidate_of entry_too_far = none
