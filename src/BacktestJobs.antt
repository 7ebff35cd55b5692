-- ===== src/BacktestJobs.antt =====
-- apps/api/src/modules/backtest/backtest.controller.ts and the rows and the queue of
-- apps/worker/src/backtest-runner.ts: a backtest is created with its job, and the worker takes the jobs one after
-- the other (main.ts, concurrency 1). A worker that dies within a run is not modelled. The length of a name is
-- what the schema reads of it; that the two times are well formed is taken for granted.
pub mod Settles
mod Tests
use mmxm.Prelude.{
  ℕ, ◌+◌, ◌-◌, ◌*◌, Bool, true, false, ◌&&◌, Option, none, some, List, [], ◌∷◌, ◌++◌, map, String,
  leb, same_text, if◌then◌else◌, filter, find, first, sort_by,
}
use mmxm.Double.{Double}
use mmxm.Types.{
  Timeframe, m1, m5, m15, h1, h4, d1, Candle, Direction, MmxmStrategyConfig,
  default_strategy_config,
}
use mmxm.Ingest.{CandleRow, same_timeframe}
use mmxm.Candles.{load_candle_range}
use mmxm.Candles.Recent.{to_candle}
use mmxm.Backtest.{
  Result, win, loss, Trade, Summary, Setting, Backtest, completed, failed, run_backtest,
}
use mmxm.Worker.Versions.{StrategyVersion, newest_version, spread_over}

pub data BacktestStatus : Type 0 where
  is_queued is_running is_completed is_failed : BacktestStatus

pub record TradeRow (W : Type 0) : Type 0 where
  pub direction : Direction
  pub entry_price : W
  pub exit_price : Option W
  pub pnl : Option W
  pub exit_reason : Option Result
  pub entered_at : ℕ

pub record BacktestRow (W : Type 0) : Type 0 where
  pub id : String
  pub strategy_version_id : String
  pub from_ts : ℕ
  pub to_ts : ℕ
  pub status : BacktestStatus
  pub summary : Option (Summary W)
  pub trades : List (TradeRow W)

-- The table and the queue, oldest job first.
pub record Backtests (W : Type 0) : Type 0 where
  pub rows : List (BacktestRow W)
  pub queue : List String

pub record CreateBody : Type 0 where
  pub name_length : ℕ
  pub range_start : ℕ
  pub range_end : ℕ

pub data Created : Type 0 where
  validation_failed no_active_strategy : Created
  created : String → Created

-- What a run uses besides its row.
pub record Replay (W : Type 0) : Type 0 where
  pub versions : List (StrategyVersion W)
  pub bars : List (CandleRow W)
  pub engine_version : String
  pub now : ℕ → ℕ
  pub uuid : ℕ → String
  pub to_fixed : W → String
  pub same_price : String → String → Bool

-- `createSchema`: a name of 1 to 120 units.
abbrev pub is_named : CreateBody → Bool
is_named b = leb 1 b.name_length && leb b.name_length 120

-- How many days before the range each timeframe is loaded from.
abbrev pub extra_days : Timeframe → ℕ
extra_days m1 = 0
extra_days m5 = 0
extra_days m15 = 0
extra_days h1 = 30
extra_days h4 = 60
extra_days d1 = 120

module _ {W : Type 0} where
  abbrev queued_row : String → String → CreateBody → BacktestRow W
  queued_row id version b = record {
    id = id;
    strategy_version_id = version;
    from_ts = b.range_start;
    to_ts = b.range_end;
    status = is_queued;
    summary = none;
    trades = [];
  }

  abbrev pub create_for :
      Option (StrategyVersion W) → String → CreateBody → Backtests W → Backtests W × Created
  create_for none id b s = (s, no_active_strategy)
  create_for (some v) id b s = (
    record { rows = s.rows ++ queued_row id v.id b ∷ []; queue = s.queue ++ id ∷ [] },
    created id,
  )

  pub create : List (StrategyVersion W) → String → CreateBody → Backtests W → Backtests W × Created
  create versions id b s =
      if is_named b
      then create_for (newest_version (filter (λ v. v.is_active) versions)) id b s
      else (s, validation_failed)

  abbrev is_in_range : Timeframe → ℕ → ℕ → CandleRow W → Bool
  is_in_range tf start upto r =
      same_timeframe r.timeframe tf && leb start r.open_time && leb r.open_time upto && r.is_closed

  abbrev pub exit_of : Trade W → Option (Result × W) → Option W
  exit_of t none = none
  exit_of t (some (win, rr)) = first t.tps
  exit_of t (some (loss, rr)) = some t.sl

  abbrev pnl_of : Option (Result × W) → Option W
  pnl_of none = none
  pnl_of (some (r, rr)) = some rr

  abbrev exit_reason_of : Option (Result × W) → Option Result
  exit_reason_of none = none
  exit_reason_of (some (r, rr)) = some r

  pub trade_row : Trade W → TradeRow W
  trade_row t = record {
    direction = t.direction;
    entry_price = t.entry;
    exit_price = exit_of t t.outcome;
    pnl = pnl_of t.outcome;
    exit_reason = exit_reason_of t.outcome;
    entered_at = t.time;
  }

  -- The update at the end of a run, or in its `catch`.
  pub with_result : Backtest W → BacktestRow W → BacktestRow W
  with_result (completed summary trades) r = record r {
    status = is_completed;
    summary = some summary;
    trades = map trade_row trades;
  }
  with_result failed r = record r { status = is_failed }

module _ {W : Type 0} ⦃d : Double W⦄ where
  -- `loadCandleRange` over the table, from the days before the range on.
  pub history_of : List (CandleRow W) → ℕ → ℕ → Timeframe → List (Candle W)
  history_of bars start upto tf = load_candle_range (
      map to_candle (
        sort_by (λ a b. leb a.open_time b.open_time)
          (filter (is_in_range tf (start - extra_days tf * 86_400_000) upto) bars)))

  abbrev config_for : Option (StrategyVersion W) → MmxmStrategyConfig W
  config_for none = default_strategy_config
  config_for (some v) = spread_over default_strategy_config v.config

  pub setting_of : Replay W → BacktestRow W → Setting W
  setting_of p r = record {
    config = config_for (find (λ v. same_text v.id r.strategy_version_id) p.versions);
    version = p.engine_version;
    history = history_of p.bars r.from_ts r.to_ts;
    now = p.now;
    uuid = p.uuid;
    to_fixed = p.to_fixed;
    same_text = p.same_price;
  }

  -- `runBacktest` on a row: the status RUNNING, the run, and its end. A row of another id stays as it is.
  pub replay : Replay W → String → BacktestRow W → BacktestRow W
  replay p id r =
      if same_text r.id id
      then with_result (run_backtest (setting_of p r)) (record r { status = is_running })
      else r

  -- The worker takes the jobs of the queue; a job without a row fails and leaves the table.
  pub drain : Replay W → List String → List (BacktestRow W) → List (BacktestRow W)
  drain p [] rows = rows
  drain p (id ∷ ids) rows = drain p ids (map (replay p id) rows)

  pub work : Replay W → Backtests W → Backtests W
  work p s = record { rows = drain p s.queue s.rows; queue = [] }
