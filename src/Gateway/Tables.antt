-- ===== src/Gateway/Tables.antt =====
-- apps/api/src/modules/mql5-gateway/mql5-gateway.controller.ts: what the tables keep through every request.
use mmxm.Prelude.{
  ℕ, ◌≡◌, ◌≢◌, refl, ap, ◌⊎◌, inl, inr, Bool, true, false, ◌&&◌, Option, none, some, List, [], ◌∷◌,
  ◌++◌, map, String, leb, same_text, same_text_iff, all, length, All, Distinct, Bool-cases,
  Option-cases,
}
use mmxm.Prelude.Loops.{Distinct-append, map-append}
use mmxm.Double.{Double}
use mmxm.KeyStore.{KeyStore}
use mmxm.Guard.{AuthContext}
use mmxm.Wire.{
  CandleDto, TickDto, HandshakeDto, HeartbeatDto, is_candle, is_tick, is_handshake,
  is_candle-is_ohlc,
}
use mmxm.Ingest.{Ingested, Counts}
use mmxm.Ingest.Keys.{IsCandleTable, ingest_candle-IsCandleTable}
use mmxm.Ingest.TickTable.{event_id_of}
use mmxm.Ingest.Ticks.{ingest_ticks-stores}
use mmxm.Gateway.{
  TerminalRow, GatewayStore, Call, handshake_call, ticks_call, current_call, closed_call,
  heartbeat_call, history_call, new_terminal, known_again, upsert_terminal, has_terminal, beat,
  with_closed, tally, store_candle, note_closed, history_loop, handshake, heartbeat, ticks_batch,
  candle_current, candle_closed, history_batch, handle,
}

module _ {W : Type 0} where
  abbrev pub row_id : TerminalRow W → String
  row_id t = t.id

  abbrev pub row_terminal : TerminalRow W → String
  row_terminal t = t.terminal_id

  -- The row is there and keeps its ids, or it comes at the end.
  upsert_cases :
      (now : ℕ) (id : String) (h : HandshakeDto W) (ts : List (TerminalRow W))
      → ((map row_id (upsert_terminal now id h ts).1 ≡ map row_id ts)
          × (map row_terminal (upsert_terminal now id h ts).1 ≡ map row_terminal ts))
        ⊎ (((upsert_terminal now id h ts).1 ≡ ts ++ new_terminal now id h ∷ [])
            × All (λ i. i ≢ h.terminal_id) (map row_terminal ts))
  unfolding upsert_terminal known_again
  upsert_cases now id h [] = inr (refl, tt)
  upsert_cases now id h (t ∷ ts) = elim (Bool-cases (same_text t.terminal_id h.terminal_id)) [
    | inl e ↦ inl (rw e refl, rw e refl)
    | inr e ↦ elim (upsert_cases now id h ts) [
      | inl (i, j) ↦ inl (rw e (ap (◌∷◌ t.id) i), rw e (ap (◌∷◌ t.terminal_id) j))
      | inr (new, other) ↦ inr (
        rw e (ap (◌∷◌ t) new),
        (λ same. let hit = (same_text_iff t.terminal_id h.terminal_id).1 same in cc, other),
      )
    ]
  ]

  map-beat :
      (f : TerminalRow W → String) (now : ℕ) (id : String) (ts : List (TerminalRow W))
      → ((t : TerminalRow W) → f (record t { is_online = true; last_heartbeat_at = now }) ≡ f t)
      → map f (beat now id ts) ≡ map f ts
  unfolding beat
  map-beat f now id [] h = refl
  map-beat f now id (t ∷ ts) h = elim (Bool-cases (same_text t.id id)) [
    | inl e ↦ rw (e, h t, map-beat f now id ts h) refl
    | inr e ↦ rw (e, map-beat f now id ts h) refl
  ]

  -- The id that a handshake brings for a new row is no row's.
  abbrev pub IsFresh : Call W → List (TerminalRow W) → Type 0
  IsFresh (handshake_call h id connection) ts = All (λ i. i ≢ id) (map row_id ts)
  IsFresh (ticks_call _) ts = Unit
  IsFresh (current_call _) ts = Unit
  IsFresh (closed_call _) ts = Unit
  IsFresh (heartbeat_call _) ts = Unit
  IsFresh (history_call _) ts = Unit

module _ {W : Type 0} ⦃d : Double W⦄ where
  -- Whether a candle is closed is not looked at by the schema.
  closed-is_candle :
      (b : Bool) (c : CandleDto W) → is_candle c ≡ true → is_candle (with_closed b c) ≡ true
  unfolding is_candle
  closed-is_candle b c e = e

module _ {W S : Type 0} ⦃d : Double W⦄ where
  -- Terminals have distinct database ids and distinct terminal ids, the candles are a candle table, and no tick is
  -- stored twice.
  pub record IsSound (s : GatewayStore W S) : Type 0 where
    pub ids : Distinct (map row_id s.terminals)
    pub terminal_ids : Distinct (map row_terminal s.terminals)
    pub candles : IsCandleTable s.candles
    pub ticks : Distinct (map event_id_of s.ticks.rows)

  store_candle-IsSound :
      (terminal : String) (c : CandleDto W) (s : GatewayStore W S)
      → is_candle c ≡ true
      → IsSound s
      → IsSound (store_candle terminal c s).1
  unfolding store_candle
  store_candle-IsSound terminal c s fine i = elim (Bool-cases (has_terminal terminal s.terminals)) [
    | inr e ↦ rw e i
    | inl e ↦ rw e (record {
      ids = i.ids;
      terminal_ids = i.terminal_ids;
      candles =
          ingest_candle-IsCandleTable terminal c s.candles (is_candle-is_ohlc c fine) i.candles;
      ticks = i.ticks;
    })
  ]

  note_closed-IsSound :
      (terminal : String) (c : CandleDto W) (r : Option Ingested) (s : GatewayStore W S)
      → IsSound s
      → IsSound (note_closed terminal c r s)
  unfolding note_closed
  note_closed-IsSound terminal c none s i = i
  note_closed-IsSound terminal c (some r) s i = record {
    ids = i.ids;
    terminal_ids = i.terminal_ids;
    candles = i.candles;
    ticks = i.ticks;
  }

  history_loop-IsSound :
      (terminal : String) (cs : List (CandleDto W)) (n : Counts) (s : GatewayStore W S)
      → all is_candle cs ≡ true
      → IsSound s
      → IsSound (history_loop terminal cs n s).1
  unfolding history_loop
  history_loop-IsSound terminal [] n s fine i = i
  history_loop-IsSound terminal (c ∷ cs) n s fine i = elim (Bool-cases (is_candle c)) [
    | inr e ↦ let bad : false ≡ true = rw e at fine in cc
    | inl e ↦
        let next =
          store_candle-IsSound terminal (with_closed true c) s (closed-is_candle true c e) i in
        elim (Option-cases (store_candle terminal (with_closed true c) s).0) [
          | inl gone ↦ rw (history_loop, gone) next
          | inr (r, found) ↦
              rw (history_loop, found)
                (history_loop-IsSound terminal cs (tally r n) _ (rw e at fine) next)
        ]
  ]

  handshake-IsSound :
      (now : ℕ) (id connection : String) (h : HandshakeDto W) (s : GatewayStore W S)
      → All (λ i. i ≢ id) (map row_id s.terminals)
      → IsSound s
      → IsSound (handshake now id connection h s).1
  unfolding handshake new_terminal
  handshake-IsSound now id connection h s fresh i = elim (Bool-cases (is_handshake h)) [
    | inr e ↦ rw e i
    | inl e ↦ elim (upsert_cases now id h s.terminals) [
      | inl (ids, names) ↦ rw e (record {
        ids = rw ids i.ids;
        terminal_ids = rw names i.terminal_ids;
        candles = i.candles;
        ticks = i.ticks;
      })
      | inr (new, other) ↦
          rw (e, new)
            (record {
              ids =
                  rw (map-append row_id s.terminals (new_terminal now id h ∷ []))
                    (Distinct-append (map row_id s.terminals) id i.ids fresh);
              terminal_ids = rw (map-append row_terminal s.terminals (new_terminal now id h ∷ [])) (
                  Distinct-append (map row_terminal s.terminals) h.terminal_id i.terminal_ids
                    other);
              candles = i.candles;
              ticks = i.ticks;
            })
    ]
  ]

  heartbeat-IsSound :
      (now : ℕ) (ctx : AuthContext) (h : HeartbeatDto) (s : GatewayStore W S)
      → IsSound s
      → IsSound (heartbeat now ctx h s).1
  unfolding heartbeat
  heartbeat-IsSound now ctx h s i =
      elim (Bool-cases (has_terminal ctx.terminal_db_id s.terminals)) [
        | inr e ↦ rw e i
        | inl e ↦ rw e (record {
          ids = rw (map-beat row_id now ctx.terminal_db_id s.terminals (λ t. refl)) i.ids;
          terminal_ids =
              rw (map-beat row_terminal now ctx.terminal_db_id s.terminals (λ t. refl))
                i.terminal_ids;
          candles = i.candles;
          ticks = i.ticks;
        })
      ]

  module _ ⦃k : KeyStore S⦄ where
    ticks_batch-IsSound :
        (now : ℕ) (ctx : AuthContext) (ts : List (TickDto W)) (s : GatewayStore W S)
        → IsSound s
        → IsSound (ticks_batch now ctx ts s).1
    unfolding ticks_batch
    ticks_batch-IsSound now ctx ts s i =
        elim (Bool-cases (leb (length ts) 1000 && all is_tick ts)) [
          | inr e ↦ rw e i
          | inl e ↦
              let (_, _, _, ticks) =
                ingest_ticks-stores ctx.terminal_db_id now ts s.ticks i.ticks in
              rw e (record {
                ids = i.ids;
                terminal_ids = i.terminal_ids;
                candles = i.candles;
                ticks = ticks;
              })
        ]

    -- Every request keeps the tables sound, whatever its answer, if the id that a handshake brings for
    -- a new row is no row's.
    pub handle-IsSound :
        (now : ℕ) (ctx : AuthContext) (call : Call W) (s : GatewayStore W S)
        → IsFresh call s.terminals
        → IsSound s
        → IsSound (handle now ctx call s).1
    unfolding handle candle_current candle_closed history_batch
    handle-IsSound now ctx (handshake_call h id connection) s fresh i =
        handshake-IsSound now id connection h s fresh i
    handle-IsSound now ctx (ticks_call ts) s fresh i = ticks_batch-IsSound now ctx ts s i
    handle-IsSound now ctx (current_call c) s fresh i = elim (Bool-cases (is_candle c)) [
      | inr e ↦ rw e i
      | inl e ↦ rw e (
          store_candle-IsSound ctx.terminal_db_id (with_closed false c) s
            (closed-is_candle false c e) i)
    ]
    handle-IsSound now ctx (closed_call c) s fresh i = elim (Bool-cases (is_candle c)) [
      | inr e ↦ rw e i
      | inl e ↦ rw e (
          note_closed-IsSound ctx.terminal_db_id c _ _ (
            store_candle-IsSound ctx.terminal_db_id (with_closed true c) s
              (closed-is_candle true c e) i))
    ]
    handle-IsSound now ctx (heartbeat_call h) s fresh i = heartbeat-IsSound now ctx h s i
    handle-IsSound now ctx (history_call h) s fresh i =
        elim (Bool-cases (leb (length h.candles) 1000)) [
          | inr e ↦ rw e i
          | inl e ↦ elim (Bool-cases (all is_candle h.candles)) [
            | inr f ↦ rw (e, f) i
            | inl f ↦ rw (e, f) (history_loop-IsSound ctx.terminal_db_id h.candles _ s f i)
          ]
        ]
