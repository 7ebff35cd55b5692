-- ===== src/Gateway/History.antt =====
-- apps/api/src/modules/mql5-gateway/mql5-gateway.controller.ts, `historyBatch`: batches that come again.
use mmxm.Prelude.{◌+◌, ◌≡◌, refl, ap, true, leb, length, all, arith}
use mmxm.Double.{Double}
use mmxm.Wire.{HistoryBatchDto, is_candle}
use mmxm.Ingest.{CandleStore, Counts}
use mmxm.Ingest.Keys.{IsCandleTable}
use mmxm.Gateway.{GatewayStore, counted, has_terminal, history_batch}
use mmxm.Guard.{AuthContext}
use mmxm.Gateway.Pass.{
  zero_counts, ingest_all, ingest_all-total, history_loop-ingest_all, ingest_all-IsCandleTable,
  ingest_all-closes, ingest_all-settles, ingest_all_of_settled,
}

module _ {W S : Type 0} ⦃d : Double W⦄ (ctx : AuthContext) (h : HistoryBatchDto W) where
  -- A batch of a terminal that is there, at most 1000 candles that the schema accepts.
  abbrev pub IsBatch : GatewayStore W S → Type 0
  IsBatch s =
      (leb (length h.candles) 1000 ≡ true)
      × (all is_candle h.candles ≡ true)
      × (has_terminal ctx.terminal_db_id s.terminals ≡ true)

  history_batch-ingest_all :
      (s : GatewayStore W S)
      → IsBatch s
      → history_batch ctx h s ≡ (
        counted (ingest_all ctx.terminal_db_id h.candles zero_counts s.candles).0,
        record s { candles = (ingest_all ctx.terminal_db_id h.candles zero_counts s.candles).1 },
      )
  unfolding history_batch
  history_batch-ingest_all s (few, fine, here) =
      rw (few, fine, history_loop-ingest_all ctx.terminal_db_id h.candles zero_counts s here) refl

  -- The answer to a batch counts every candle once, as accepted or as a duplicate.
  pub history_batch-total :
      (s : GatewayStore W S)
      → IsBatch s
      → (n : Counts) × ((history_batch ctx h s).0 ≡ counted n)
        × (n.accepted + n.duplicated ≡ length h.candles)
  history_batch-total s b =
      let here = history_batch-ingest_all s b in
      let total = ingest_all-total ctx.terminal_db_id h.candles zero_counts s.candles in
      (
        (ingest_all ctx.terminal_db_id h.candles zero_counts s.candles).0,
        ap (λ p. p.0) here,
        omega (arith, total),
      )

  -- A batch of at most 1000 candles that the schema accepts, of a terminal that is there, changes nothing
  -- when it is sent a third time, and the answer counts duplicates only, even where its candles repeat a
  -- time with other revisions. Before the first time, the candles are a candle table.
  pub history_batch-settles :
      (s : GatewayStore W S)
      → IsBatch s
      → IsCandleTable s.candles
      → (let twice = (history_batch ctx h (history_batch ctx h s).1).1 in
          history_batch ctx h twice
          ≡ (counted (record { accepted = 0; duplicated = length h.candles }), twice))
  history_batch-settles s (few, fine, here) t =
      let pass : CandleStore W → CandleStore W =
        λ x. (ingest_all ctx.terminal_db_id h.candles zero_counts x).1 in
      let keeps : (x : CandleStore W) → IsCandleTable x → IsCandleTable (pass x) =
        λ x i. ingest_all-IsCandleTable ctx.terminal_db_id h.candles zero_counts x fine i in
      let batch : (x : CandleStore W)
          → history_batch ctx h (record s { candles = x }) ≡ (
            counted (ingest_all ctx.terminal_db_id h.candles zero_counts x).0,
            record s { candles = pass x },
          ) =
        λ x. history_batch-ingest_all (record s { candles = x }) (few, fine, here) in
      let closed = ingest_all-closes ctx.terminal_db_id h.candles zero_counts s.candles fine t in
      let settled =
        ingest_all-settles ctx.terminal_db_id h.candles zero_counts (pass s.candles) fine
          (keeps s.candles t) closed in
      let same : length h.candles + 0 ≡ length h.candles = omega arith in
      rw
        (
          batch s.candles,
          batch (pass s.candles),
          batch (pass (pass s.candles)),
          ingest_all_of_settled ctx.terminal_db_id h.candles zero_counts (pass (pass s.candles))
              settled,
        )
        (rw same refl)
