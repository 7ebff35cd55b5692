-- ===== src/Worker.antt =====
-- apps/worker/src: the jobs of the worker on the tables that they share. An analysis (analyzer.ts) looks
-- at the market and asks the gate; what it decided is stored in a step of its own, so that passes
-- of the tracker (track.ts) can come between. The verdict of a language model on a stored signal arrives in
-- a later step. The queue runs one analysis at a time (main.ts), a pass of the tracker is one step.
pub mod Versions
pub mod Rows
pub mod Single
pub mod Chronicle
pub mod Announced
mod Tests
use mmxm.Prelude.{
  ℕ, Bool, true, false, Option, none, some, List, [], ◌∷◌, ◌++◌, map, String, if◌then◌else◌,
  flat_map,
}
use mmxm.Double.{Double}
use mmxm.Types.{Candle, Timeframe, m1, m5, m15, h1, h4, d1, Direction, SignalStatus, XauusdSignal}
use mmxm.Ingest.{CandleRow}
use mmxm.Candles.Recent.{load_candles}
use mmxm.Track.{
  EventName, Effect, moved, be_applied, Tick, is_tracked, is_some, tick_price, track, apply_all,
  track_row,
}
use mmxm.Gate.{Candidate, Verdict, created, admit}
use mmxm.Analysis.{LastTick, LlmSignal, LastVerdict, Found, find_signal}
use mmxm.Notify.{
  Channels, Notice, signal_found, AiVerdict, tg_broadcast, notify_signal, notify_insight,
  effect_sent,
}
use mmxm.Worker.Versions.{StrategyVersion, load_active_config}
use mmxm.Worker.Rows.{
  TableRow, Admitted, stored_view, created_row, events_of, with_insight, candidate_of,
}

-- The calls of `publish`.
pub data Published (W : Type 0) : Type 0 where
  signal_created : String → Direction → W → W → Published W
  status_changed : EventName → String → SignalStatus → W → Published W
  break_even_applied : String → W → Published W

-- The signals, an admitted signal that is not stored yet, and what was given out, in order.
pub record World (W : Type 0) : Type 0 where
  pub rows : List (TableRow W)
  pub pending : Option (Admitted W)
  pub last_verdict : Option (LastVerdict W)
  pub published : List (Published W)
  pub sent : List (String × Notice W)

-- What an analysis reads: the clock at its start and at the gate, the other tables, the environment, and the
-- language model.
pub record JobInput (W : Type 0) : Type 0 where
  pub started : ℕ
  pub decided : ℕ
  pub uuid : String
  pub engine_version : String
  pub min_candles_m5 : ℕ
  pub min_candles_m15 : ℕ
  pub versions : List (StrategyVersion W)
  pub bars : List (CandleRow W)
  pub newest_tick : Option (LastTick W)
  pub ask : List (Candle W) → W → Option (LlmSignal W)

pub data Job (W : Type 0) : Type 0 where
  analysis : JobInput W → Job W
  storing : String → ℕ → List String → Job W
  insight : String → Candidate W → Option AiVerdict → Job W
  tracking : Option (Tick W) → ℕ → Job W

module _ {W : Type 0} where
  abbrev pub limits : JobInput W → Timeframe → ℕ
  limits m m1 = 100
  limits m m5 = m.min_candles_m5
  limits m m15 = m.min_candles_m15
  limits m h1 = 120
  limits m h4 = 90
  limits m d1 = 60

  -- The gate lets a signal through only with a version.
  abbrev pub admitted_by : Verdict → Candidate W → Bool → Option String → Option (Admitted W)
  admitted_by created c llm (some id) =
      some (record { candidate = c; llm_generated = llm; version_id = id })
  admitted_by _ c llm _ = none

  abbrev keep_verdict : Option (LastVerdict W) → Option (LastVerdict W) → Option (LastVerdict W)
  keep_verdict none old = old
  keep_verdict (some v) old = some v

  pub publication : TableRow W → W → Effect W → Published W
  publication t price (moved from to event level) = status_changed event t.row.id to price
  publication t price (be_applied entry) = break_even_applied t.row.id entry

module _ {W : Type 0} ⦃d : Double W⦄ where
  abbrev pub through_gate :
      ℕ → Option String → Option (Candidate W × Bool) → List (TableRow W) → Option (Admitted W)
  through_gate now version none rows = none
  through_gate now version (some (c, llm)) rows =
      admitted_by (admit now (is_some version) c (map stored_view rows)) c llm version

  -- `runAnalysis` to the end of the gate.
  pub run_analysis : JobInput W → World W → World W
  run_analysis m w =
      let (config, version) = load_active_config m.versions in
      let candles = load_candles (limits m) m.started m.bars in
      let (found, verdict) =
        find_signal (record { candles = candles; config = config }) m.engine_version m.started
          m.uuid m.newest_tick m.ask in
      record w {
        pending = through_gate m.decided version (candidate_of found) w.rows;
        last_verdict = keep_verdict verdict w.last_verdict;
      }

  -- From `prisma.signal.create` on: the row, the event, the message to the main chat and those to the
  -- subscribers.
  pub store_admitted :
      Channels W → String → ℕ → List String → Option (Admitted W) → World W → World W
  store_admitted ch id now subscribers none w = w
  store_admitted ch id now subscribers (some a) w = record w {
    rows = w.rows ++ created_row id now a ∷ [];
    pending = none;
    published =
        w.published
        ++ signal_created id a.candidate.direction a.candidate.preferred_entry
            a.candidate.confidence_score
          ∷ [];
    sent =
        w.sent
        ++ (notify_signal ch a.candidate ++ tg_broadcast ch (signal_found a.candidate) subscribers);
  }

  -- What a language model says of the stored signal, if it says anything.
  pub store_insight : Channels W → String → Candidate W → Option AiVerdict → World W → World W
  store_insight ch id c none w = w
  store_insight ch id c (some verdict) w = record w {
    rows = map (with_insight id verdict) w.rows;
    sent = w.sent ++ notify_insight ch c verdict;
  }

  -- The effects of a pass on a row; a row that is not tracked is not read.
  pub effects_on : W → ℕ → TableRow W → List (Effect W)
  effects_on price now t = if is_tracked t.row.status then track price now t.row else []

  pub track_one : W → ℕ → TableRow W → TableRow W
  track_one price now t =
      let effects = effects_on price now t in
      record t { row = apply_all effects t.row; events = t.events ++ events_of effects }

  pub track_pass : Channels W → Option (Tick W) → ℕ → World W → World W
  track_pass ch none now w = w
  track_pass ch (some tick) now w =
      let price = tick_price tick in
      record w {
        rows = map (track_one price now) w.rows;
        published =
            w.published
            ++ flat_map (λ t. map (publication t price) (effects_on price now t)) w.rows;
        sent =
            w.sent
            ++ flat_map (λ t. flat_map (effect_sent ch t.row price) (effects_on price now t))
                w.rows;
      }

  -- A job on the tables. The queue starts no analysis before the one before has stored its signal.
  pub run_job : Channels W → Job W → World W → World W
  run_job ch (analysis m) w = if is_some w.pending then w else run_analysis m w
  run_job ch (storing id now subscribers) w = store_admitted ch id now subscribers w.pending w
  run_job ch (insight id c verdict) w = store_insight ch id c verdict w
  run_job ch (tracking tick now) w = track_pass ch tick now w

  pub run_jobs : Channels W → List (Job W) → World W → World W
  run_jobs ch [] w = w
  run_jobs ch (j ∷ js) w = run_jobs ch js (run_job ch j w)
