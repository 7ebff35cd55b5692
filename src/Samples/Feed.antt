-- ===== src/Samples/Feed.antt =====
-- A terminal's data for the tests: one terminal, candles of an hour, two ticks, and the empty tables.
use mmxm.Prelude.{ℕ, Bool, true, none, List, [], ◌∷◌, String}
use mmxm.Prelude.Int.{pos}
use mmxm.Double.Fixed.{Fixed, fixed_double}
use mmxm.Types.{h1}
use mmxm.Samples.{price}
use mmxm.KeyStore.Timed.{TimedKeys}
use mmxm.Wire.{CandleDto, TickDto, SymbolMetadata, HandshakeDto, HistoryBatchDto}
use mmxm.Ingest.{TickStore}
use mmxm.Gateway.{GatewayStore, TerminalRow}

abbrev pub hour_candle : ℕ → ℕ → Bool → CandleDto Fixed
hour_candle open_time revision is_closed = record {
  event_id = "candle-00001";
  terminal_id = "terminal-1";
  broker_symbol = "GOLD";
  timeframe = h1;
  open_time = open_time;
  close_time = open_time;
  ohlc = record { opening = price 10; high = price 12; low = price 9; close = price 11 };
  tick_volume = 5;
  real_volume = none;
  spread = 2;
  is_closed = is_closed;
  revision = revision;
}

abbrev pub tick : String → TickDto Fixed
tick event_id = record {
  event_id = event_id;
  terminal_id = "terminal-1";
  broker_symbol = "GOLD";
  broker_timestamp_ms = 1000;
  bid = price 10;
  ask = price 11;
  last = none;
  volume = none;
  volume_real = none;
  flags = pos 0;
  spread_points = pos 1;
  sequence = pos 1;
}

abbrev pub metadata : SymbolMetadata Fixed
metadata = record {
  digits = pos 2;
  point = price 1;
  tick_size = price 1;
  tick_value = none;
  contract_size = none;
  minimum_volume = none;
  maximum_volume = none;
  volume_step = none;
}

abbrev pub hello : HandshakeDto Fixed
hello = record {
  terminal_id = "terminal-1";
  terminal_name = "MetaTrader";
  terminal_build = pos 4000;
  broker_name = "Broker";
  server_name = "Server";
  account_id_hash = "hash";
  broker_symbol = "GOLD";
  metadata = metadata;
}

-- The same hour twice, with two revisions, and the next hour.
abbrev pub batch : HistoryBatchDto Fixed
batch = record {
  batch_id = "b1";
  sequence = 0;
  timeframe = h1;
  candles = hour_candle 0 0 true ∷ hour_candle 0 1 true ∷ hour_candle 3_600_000 0 true ∷ [];
  is_last = true;
}

abbrev pub terminal_row : TerminalRow Fixed
terminal_row = record {
  id = "t1";
  terminal_id = "terminal-1";
  terminal_name = "MetaTrader";
  terminal_build = pos 4000;
  broker_name = "Broker";
  server_name = "Server";
  account_id_hash = "hash";
  broker_symbol = "GOLD";
  metadata = metadata;
  is_online = true;
  last_heartbeat_at = 0;
}

abbrev pub no_ticks : TickStore Fixed TimedKeys
no_ticks = record { keys = []; rows = []; published = [] }

abbrev pub tables : List (TerminalRow Fixed) → GatewayStore Fixed TimedKeys
tables terminals = record {
  terminals = terminals;
  mappings = [];
  connections = [];
  heartbeats = [];
  candles = record { rows = []; revisions = []; next_id = 0; messages = [] };
  ticks = no_ticks;
  audit = [];
}
