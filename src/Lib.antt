-- ===== src/Lib.antt =====
-- The core of the trading system: the gateway of the terminals, the signal engine, the analysis job with
-- its language-model fallback, the tracker of signals, the jobs and messages of the worker, the backtest, the chat
-- bot's subscribers, and the signals and the simulated account of the web pages, with the theorems that make
-- them correct.
--
-- The parts. A terminal signs its requests; the API's guard lets them in and its handlers store candles
-- and ticks. The worker runs the engine over the stored candles, asks a language model where it finds
-- nothing, decides whether a found signal is stored, follows the stored signals tick by tick, and tells
-- the chats; the API gives the signals out and the web pages show them. A backtest runs the same engine
-- over a past range. The engine is a pure function of candles and a
-- configuration: it measures (ATR), finds pivots, structure events, zones and liquidity levels,
-- weighs six checks, and plans entry, stop and targets.
--
-- Which file models what (a folder holds the lemmas and tests of the file of its name):
--   Types          packages/types/src/core.ts and signal.ts: the shared data
--   Measure        packages/trading-core/src/measure.ts: trueRange, atr, closedOnly
--   Pivots         packages/trading-core/src/pivots.ts: findPivots
--   Structure      packages/trading-core/src/structure.ts: detectStructure, breaksOrigin
--   Zones          packages/trading-core/src/zones.ts: detectFvgs, detectOrderBlocks
--   Liquidity      packages/trading-core/src/liquidity.ts, with findEqualLevels of pivots.ts
--   Bias           packages/trading-core/src/engine.ts: dealingRange, htfBias, displacementIndices
--   Checks, Plan   packages/trading-core/src/engine.ts: the parts of analyze before and after the checks
--   Engine         packages/trading-core/src/engine.ts: analyze; Engine/Outcome is the way it ends
--   Track          apps/worker/src/track.ts: trackSignalOutcomes
--   Backtest       apps/worker/src/backtest-runner.ts: runBacktest
--   Candles        apps/worker/src/candles.ts: loadCandleRange; Candles/Recent is loadCandles
--   Gate           apps/worker/src/analyzer.ts: the part of runAnalysis after a signal is found
--   Analysis       apps/worker/src/analyzer.ts: the part of runAnalysis before that
--   Llm            apps/worker/src/deepseek.ts: the models in turn, and the object in an answer
--   Bot            apps/worker/src/telegram-bot.ts: commands, polls and the table of subscribers
--   Wire           apps/api/src/modules/mql5-gateway/dto.ts: the messages and the tests of their schemas
--   KeyStore       what the code uses of Redis, an interface with laws; KeyStore/Timed fills it
--   Guard          apps/api/src/modules/mql5-gateway/mql5-signature.guard.ts: canActivate
--   Ingest         apps/api/src/modules/mql5-gateway/ingestion.service.ts: ingestTicks, ingestCandle
--   Gateway        apps/api/src/modules/mql5-gateway/mql5-gateway.controller.ts: the handlers
--   Notify         apps/worker/src/notify.ts: which messages go to which chats
--   Worker         apps/worker/src/analyzer.ts, track.ts and main.ts: the jobs on the tables that they share;
--                  Worker/Versions is loadActiveConfig, Worker/Rows the row of a stored signal
--   SignalApi      apps/api/src/modules/signal/signal.controller.ts: list and detail
--   MarketData     apps/api/src/modules/market-data/market-data.controller.ts, and the points of the chart page
--   Terminals      apps/api/src/modules/mql5-terminal/mql5-terminal.controller.ts: the list with its statuses
--   BacktestJobs   apps/api/src/modules/backtest/backtest.controller.ts with the rows and queue of
--                  apps/worker/src/backtest-runner.ts
--   Sim            apps/web/src/lib/sim.ts: computeSim
--   SimPage        apps/web/src/app/simulasi/page.tsx: the fetch loop, the account and the drawdown
--   SignalsPage    apps/web/src/app/signals/page.tsx and [id]/page.tsx: paging and reached targets
-- Prelude holds the shared helpers, Samples the data of the tests. Definitions have the names of the
-- source's functions; a part of a function has a name of its own and is named in its file.
--
-- How the program is read. A `number` is a value of any type with the interface `Double`, so rounding
-- is kept; Double/Fixed is an instance that runs. Counts and indices are natural numbers. A
-- time is its milliseconds since 1970. Reads of arrays that are always in range return an option
-- whose `none` is not reached. Sorting is stable insertion. The clock and random ids are arguments.
-- An early return of `analyze` is a `stop` with its reason, a null behind `!` is `thrown`. The effects
-- of the tracker on a row are a list, `apply` is what each does. A table is the list of its rows.
--
-- Bounds and fuel. Loops over arrays are structural. The loop over target levels has as fuel the
-- highest level reached, and starts at 1 or more, so it makes no more turns than that.
--
-- The loop that fetches all pages has as fuel the number of rows, since each turn adds one at least.
--
-- The worker is a list of jobs on explicit tables. An analysis that the gate lets through and its
-- storing are two jobs, so that passes of the tracker come between; a pass, and the queries of the gate, are one
-- step each. The queue runs one analysis at a time.
--
-- The gateway's handlers run one after the other on explicit tables; a request is the guard, then the
-- handler. Redis is the interface KeyStore, whose laws are the documented behaviour of SET with NX and EX.
-- The HMAC, Number on a text, JSON.parse and the request to a language model are arguments. The texts of
-- chats and models are lists of UTF-16 code units.
--
-- Not modelled: the other web pages and the markup of these, the API's other controllers, news (whose
-- module is not in the repository), logging and configuration from the environment, the database
-- schema, and the expert advisor, which are presentation, input and output, or another language.
-- Descriptions for people, the wording of messages, the hash in the log of a signal, and debug output other
-- than the reason of a refusal, are left out. So are requests that the API handles at the same time, and passes
-- of the tracker that overlap.
pub mod Prelude
pub mod Double
pub mod Types
pub mod Measure
pub mod Notify
pub mod Pivots
pub mod Structure
pub mod Zones
pub mod Liquidity
pub mod Bias
pub mod Checks
pub mod Plan
pub mod Engine
pub mod Track
pub mod Backtest
pub mod Gate
pub mod Samples
pub mod Sim
pub mod Candles
pub mod KeyStore
pub mod Guard
pub mod Wire
pub mod Ingest
pub mod Gateway
pub mod Bot
pub mod Llm
pub mod Analysis
pub mod Worker
pub mod SignalApi
pub mod MarketData
pub mod BacktestJobs
pub mod Terminals
pub mod SimPage
pub mod SignalsPage
