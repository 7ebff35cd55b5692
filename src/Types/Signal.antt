-- ===== src/Types/Signal.antt =====
-- packages/types/src/signal.ts: signals, liquidity levels, pivots, structure events and zones.
-- A level's id, a text such as `SWING_HIGH-17`, is the pair of its type and its number. Texts that
-- are built for people to read (descriptions of invalidation rules) are left out.
use mmxm.Prelude.{ℕ, Bool, Option, List, String}
use mmxm.Types.Core.{Timeframe}

pub data Direction : Type 0 where
  long short : Direction

pub data Bias : Type 0 where
  bullish bearish neutral : Bias

pub data Trend : Type 0 where
  up down : Trend

pub data SignalStatus : Type 0 where
  watching preliminary confirmed active : SignalStatus
  invalidated expired : SignalStatus
  tp1_hit tp2_hit completed stopped failed : SignalStatus

pub data MmxmModel : Type 0 where
  market_maker_buy_model market_maker_sell_model : MmxmModel

pub data LiquidityType : Type 0 where
  pdh pdl pwh pwl : LiquidityType
  asia_high asia_low london_high london_low new_york_high new_york_low : LiquidityType
  equal_high equal_low swing_high swing_low : LiquidityType

pub data LiquidityState : Type 0 where
  fresh touched raided swept broken dead : LiquidityState

pub record LevelId : Type 0 where
  pub kind : LiquidityType
  pub stamp : ℕ

pub record LiquidityLevel (W : Type 0) : Type 0 where
  pub id : LevelId
  pub timeframe : Timeframe
  pub type : LiquidityType
  pub price : W
  pub state : LiquidityState
  pub detected_at : ℕ
  pub swept_at : Option ℕ
  pub invalidated_at : Option ℕ

pub data PivotKind : Type 0 where
  high_pivot low_pivot : PivotKind

pub record Pivot (W : Type 0) : Type 0 where
  pub index : ℕ
  pub time : ℕ
  pub price : W
  pub kind : PivotKind
  pub is_confirmed : Bool

pub data StructureKind : Type 0 where
  bos choch mss : StructureKind

-- 'BULLISH' | 'BEARISH', the sides of a structure event and of a zone.
pub data Side : Type 0 where
  bull bear : Side

pub record StructureEvent (W : Type 0) : Type 0 where
  pub kind : StructureKind
  pub direction : Side
  pub break_price : W
  pub pivot_index : ℕ
  pub break_candle_index : ℕ
  pub timeframe : Timeframe
  pub is_confirmed : Bool

pub record Fvg (W : Type 0) : Type 0 where
  pub direction : Side
  pub low : W
  pub high : W
  pub formed_at_index : ℕ
  pub mitigated : Bool
  pub evidence_candle_ids : List ℕ

pub record OrderBlock (W : Type 0) : Type 0 where
  pub direction : Side
  pub low : W
  pub high : W
  pub formed_at_index : ℕ
  pub mitigated : Bool
  pub evidence_candle_ids : List ℕ

pub record DealingRange (W : Type 0) : Type 0 where
  pub low : W
  pub high : W
  pub equilibrium : W
  pub premium_above : W
  pub discount_below : W

pub data ReasonCode : Type 0 where
  htf_bias_or_zone liquidity_swept displacement mss_choch fvg_or_ob premium_discount : ReasonCode

-- A candle is named by its opening time.
pub data EvidenceId : Type 0 where
  candle_id : ℕ → EvidenceId
  level_id : LevelId → EvidenceId

pub record SignalReason : Type 0 where
  pub code : ReasonCode
  pub description : String
  pub evidence_candle_ids : List EvidenceId
  pub weight : ℕ

pub data RuleCode : Type 0 where
  sl ttl : RuleCode

pub data RuleCondition : Type 0 where
  close_below close_above structure_broken expiry : RuleCondition

pub record InvalidationRule (W : Type 0) : Type 0 where
  pub code : RuleCode
  pub price : Option W
  pub condition : RuleCondition

pub record TakeProfit (W : Type 0) : Type 0 where
  pub level : ℕ
  pub price : W
  pub allocation_percentage : ℕ
  pub liquidity_target : LiquidityType

pub record XauusdSignal (W : Type 0) : Type 0 where
  pub id : String
  pub direction : Direction
  pub status : SignalStatus
  pub mmxm_model : MmxmModel
  pub entry_min : W
  pub entry_max : W
  pub preferred_entry : W
  pub stop_loss : W
  pub take_profits : List (TakeProfit W)
  pub risk_reward_ratio : W
  pub confidence_score : ℕ
  pub higher_timeframe_bias : Bias
  pub setup_timeframe : Timeframe
  pub confirmation_timeframe : Timeframe
  pub precision_timeframe : Timeframe
  pub reasons : List SignalReason
  pub invalidation_rules : List (InvalidationRule W)
  pub detected_at : ℕ
  pub confirmed_at : Option ℕ
  pub expires_at : ℕ
  pub strategy_version : String
