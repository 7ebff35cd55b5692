-- ===== src/Gateway/Tests.antt =====
-- The theorems on the requests at concrete ones, with a stand-in for the HMAC.
use mmxm.Prelude.{ℕ, ◌≡◌, refl, ◌⊎◌, inl, true, some, none, List, [], ◌∷◌, String, map, all}
use mmxm.Double.Fixed.{Fixed, fixed_double}
use mmxm.KeyStore.{IsKeyStore}
use mmxm.KeyStore.Timed.{TimedKeys, timed_keys, TimedKeys-IsKeyStore}
use mmxm.Samples.{price}
use mmxm.Samples.Feed.{hour_candle, tick, hello, batch, terminal_row, tables}
use mmxm.Guard.{GuardSettings, Request, AuthContext, Refusal}
use mmxm.Guard.Authentic.{IsAuthentic}
use mmxm.Wire.{is_candle, is_ohlc, is_positive, has_min, utf16_length}
use mmxm.Ingest.Keys.{IsCandleTable}
use mmxm.Gateway.{
  Call, handshake_call, ticks_call, closed_call, counted, as_known, history_batch, receive,
}
use mmxm.Gateway.Tables.{IsSound}
use mmxm.Gateway.Entrance.{receive_all, with_keys, receive-guarded, receive_all-IsSound}
use mmxm.Gateway.History.{history_batch-settles}

instance abbrev timed_law : IsKeyStore TimedKeys
timed_law = TimedKeys-IsKeyStore

abbrev settings : GuardSettings Fixed
settings = record {
  api_key = "key-0001";
  api_secret = "secret";
  skew_seconds = price 30;
  nonce_ttl_seconds = 60;
  to_number = λ text. price 1030;
  hmac = λ secret text. text;
}

abbrev request : String → String → String → Request
request nonce signature url = record {
  api_key = some "key-0001";
  timestamp = some "1030";
  nonce = some nonce;
  signature = some signature;
  terminal_id = some "terminal-1";
  raw_body = none;
  body = "{}";
  url = some url;
}

abbrev context : AuthContext
context = record { terminal_db_id = "t1"; terminal_id = "terminal-1"; broker_symbol = "GOLD" }

abbrev no_keys : TimedKeys
no_keys = []

no_candles : IsCandleTable {W = Fixed} (tables (terminal_row ∷ [])).candles
no_candles = record { ids = tt; before_next = tt; keys = tt; prices = tt }

batch_fine : all is_candle batch.candles ≡ true
unfolding is_candle is_ohlc is_positive has_min utf16_length
batch_fine = refl

sound : IsSound {W = Fixed} {S = TimedKeys} (tables [])
sound = record {
  ids = tt;
  terminal_ids = tt;
  candles = record { ids = tt; before_next = tt; keys = tt; prices = tt };
  ticks = tt;
}

history_batch-settles_example :
    (let twice =
        (history_batch context batch
          (history_batch context batch (tables (terminal_row ∷ []))).1).1 in
      history_batch context batch twice
      ≡ (counted (record { accepted = 0; duplicated = 3 }), twice))
history_batch-settles_example =
    history_batch-settles context batch (tables (terminal_row ∷ [])) (refl, batch_fine, refl)
      no_candles

-- The second request has a signature that is not the text's.
receive-guarded_example :
    ((ctx : AuthContext) × IsAuthentic settings
        (map as_known (terminal_row ∷ []))
        (request "n2" "forged" "/mql5/candles/closed")
        1_000_000
        no_keys
        ctx)
    ⊎ ((why : Refusal) × (keys : TimedKeys) × (receive settings
            (request "n2" "forged" "/mql5/candles/closed")
            1_000_000
            (closed_call (hour_candle 0 0 true))
            (tables (terminal_row ∷ []))
          ≡ (inl why, with_keys keys (tables (terminal_row ∷ [])))))
receive-guarded_example =
    receive-guarded settings (request "n2" "forged" "/mql5/candles/closed") 1_000_000
      (closed_call (hour_candle 0 0 true)) (tables (terminal_row ∷ []))

abbrev requests : List (Request × ℕ × Call Fixed)
requests =
    (request "n1" "1030.n1.{}" "/mql5/handshake", 1_000_000, handshake_call hello "t1" "c1")
    ∷ (
      request "n2" "1030.n2.{}" "/mql5/candles/closed",
      1_000_000,
      closed_call (hour_candle 0 0 true),
    )
    ∷ (request "n3" "1030.n3.{}" "/mql5/ticks/batch", 1_000_000, ticks_call (tick "event-001" ∷ []))
    ∷ []

receive_all-IsSound_example : IsSound (receive_all settings requests (tables []))
receive_all-IsSound_example =
    receive_all-IsSound settings requests (tables []) (tt, (tt, (tt, tt))) sound
