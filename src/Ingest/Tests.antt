-- ===== src/Ingest/Tests.antt =====
-- The theorems on the storing of ticks at concrete ones.
use mmxm.Prelude.{◌≡◌, refl, List, [], ◌∷◌, length, arith}
use mmxm.Double.Fixed.{Fixed, fixed_double}
use mmxm.KeyStore.{IsKeyStore}
use mmxm.KeyStore.Timed.{TimedKeys, timed_keys, TimedKeys-IsKeyStore}
use mmxm.Wire.{TickDto}
use mmxm.Samples.Feed.{tick, no_ticks}
use mmxm.Ingest.{sort_out, dedupe, ingest_ticks}
use mmxm.Ingest.Ticks.{accepted_of, ingest_ticks-resend}

instance abbrev timed_law : IsKeyStore TimedKeys
timed_law = TimedKeys-IsKeyStore

-- The second tick is sent twice.
abbrev ticks : List (TickDto Fixed)
ticks = tick "event-001" ∷ tick "event-002" ∷ tick "event-002" ∷ []

both_accepted : accepted_of 5 ticks no_ticks ≡ tick "event-001" ∷ tick "event-002" ∷ []
unfolding sort_out dedupe
both_accepted = refl

ingest_ticks-resend_example :
    (let after = (ingest_ticks "t1" 5 ticks no_ticks).1 in
      let sent = accepted_of 5 ticks no_ticks in
      ingest_ticks "t1" 1000 sent after
      ≡ (record { accepted = 0; duplicated = length sent }, after))
ingest_ticks-resend_example =
    ingest_ticks-resend "t1" "t1" 5 1000 ticks no_ticks (omega arith) (omega arith)
