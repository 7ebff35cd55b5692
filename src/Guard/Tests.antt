-- ===== src/Guard/Tests.antt =====
-- The theorems on the guard at a request: a limit of 30 seconds for the skew and 60 for the nonce, which
-- are the configuration's defaults, and a stand-in for the HMAC.
use mmxm.Prelude.{◌≡◌, ◌≢◌, ◌↔◌, refl, some, none, List, [], ◌∷◌, arith}
use mmxm.Double.Fixed.{Fixed, fixed_double}
use mmxm.Samples.{price}
use mmxm.KeyStore.{IsKeyStore}
use mmxm.KeyStore.Timed.{TimedKeys, timed_keys, TimedKeys-IsKeyStore}
use mmxm.Guard.{
  GuardSettings, Request, Credentials, Terminal, AuthContext, let_in, is_timely, verify,
  after_nonce, check, can_activate,
}
use mmxm.Guard.Authentic.{IsAuthentic, can_activate-let_in}
use mmxm.Guard.Replay.{run_calls, no_replay}

instance abbrev timed_law : IsKeyStore TimedKeys
timed_law = TimedKeys-IsKeyStore

-- Every timestamp is read as 1030 seconds.
abbrev settings : GuardSettings Fixed
settings = record {
  api_key = "key-0001";
  api_secret = "secret";
  skew_seconds = price 30;
  nonce_ttl_seconds = 60;
  to_number = λ text. price 1030;
  hmac = λ secret text. text;
}

abbrev terminals : List Terminal
terminals = record { id = "t1"; terminal_id = "terminal-1"; broker_symbol = "GOLD" } ∷ []

abbrev request : Request
request = record {
  api_key = some "key-0001";
  timestamp = some "1030";
  nonce = some "n1";
  signature = some "1030.n1.{}";
  terminal_id = some "terminal-1";
  raw_body = none;
  body = "{}";
  url = some "/mql5/ticks/batch";
}

abbrev creds : Credentials
creds = record {
  api_key = "key-0001";
  timestamp = "1030";
  nonce = "n1";
  signature = "1030.n1.{}";
  terminal_id = "terminal-1";
}

abbrev context : AuthContext
context = record { terminal_db_id = "t1"; terminal_id = "terminal-1"; broker_symbol = "GOLD" }

abbrev empty : TimedKeys
empty = []

entered : (can_activate settings terminals request 1_000_000 empty).0 ≡ let_in context
unfolding can_activate check after_nonce verify is_timely
entered = refl

can_activate-let_in_example :
    ((can_activate settings terminals request 1_000_000 empty).0 ≡ let_in context)
    ↔ IsAuthentic settings terminals request 1_000_000 empty context
can_activate-let_in_example = can_activate-let_in settings terminals request 1_000_000 empty context

no_replay_example :
    (can_activate settings terminals request 1_059_999 (
      run_calls settings terminals
        ((request, 1_030_000) ∷ [])
        (can_activate settings terminals request 1_000_000 empty).1)).0
    ≢ let_in context
no_replay_example =
    no_replay settings terminals request request 1_000_000 1_059_999 empty context context
      ((request, 1_030_000) ∷ []) entered creds creds refl refl refl
      ((omega arith, omega arith), tt) (omega arith) (omega arith)
