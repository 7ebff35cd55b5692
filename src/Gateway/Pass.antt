-- ===== src/Gateway/Pass.antt =====
-- apps/api/src/modules/mql5-gateway/mql5-gateway.controller.ts, `historyBatch`: one pass over the candles.
use mmxm.Prelude.{
  ℕ, suc, ◌+◌, ◌≡◌, refl, ap, inl, inr, true, false, some, List, [], ◌∷◌, String, length, all, All,
  Bool-cases, arith,
}
use mmxm.Prelude.Loops.{All-map'}
use mmxm.Double.{Double}
use mmxm.Wire.{CandleDto, is_candle, is_candle-is_ohlc}
use mmxm.Ingest.{CandleStore, Ingested, accepted, duplicated, revised, Counts, ingest_candle}
use mmxm.Ingest.Candles.{IsSettled, ingest_of_IsSettled, ingest_of_IsClosed, ingest-IsClosed}
use mmxm.Ingest.Keys.{IsCandleTable, ingest_candle-IsCandleTable}
use mmxm.Ingest.Settled.{Reaches, ingest-Reaches}
use mmxm.Gateway.{GatewayStore, has_terminal, with_closed, tally, store_candle, history_loop}

abbrev pub zero_counts : Counts
zero_counts = record { accepted = 0; duplicated = 0 }

-- A round adds one to one of the counters.
tally-total :
    (r : Ingested) (n : Counts)
    → (tally r n).accepted + (tally r n).duplicated ≡ suc (n.accepted + n.duplicated)
tally-total accepted n = omega arith
tally-total duplicated n = omega arith
tally-total revised n = omega arith

module _ {W : Type 0} where
  -- The candles alone: the loop's answers, and what it leaves.
  pub ingest_all : String → List (CandleDto W) → Counts → CandleStore W → Counts × CandleStore W
  ingest_all terminal [] n s = (n, s)
  ingest_all terminal (c ∷ cs) n s =
      let (r, s') = ingest_candle terminal (with_closed true c) s in
      ingest_all terminal cs (tally r n) s'

  pub ingest_all-total :
      (terminal : String) (cs : List (CandleDto W)) (n : Counts) (s : CandleStore W)
      → (let (m, _) = ingest_all terminal cs n s in
          m.accepted + m.duplicated ≡ length cs + (n.accepted + n.duplicated))
  unfolding ingest_all
  ingest_all-total terminal [] n s = omega arith
  ingest_all-total terminal (c ∷ cs) n s =
      let (r, s') = ingest_candle terminal (with_closed true c) s in
      omega (arith, ingest_all-total terminal cs (tally r n) s', tally-total r n)

  module _ {S : Type 0} where
    store_candle_of_terminal :
        (terminal : String) (c : CandleDto W) (s : GatewayStore W S)
        → has_terminal terminal s.terminals ≡ true
        → store_candle terminal c s ≡ (
          some (ingest_candle terminal c s.candles).0,
          record s { candles = (ingest_candle terminal c s.candles).1 },
        )
    unfolding store_candle
    store_candle_of_terminal terminal c s here = rw here refl

    pub history_loop-ingest_all :
        (terminal : String) (cs : List (CandleDto W)) (n : Counts) (s : GatewayStore W S)
        → has_terminal terminal s.terminals ≡ true
        → history_loop terminal cs n s ≡ (
          some (ingest_all terminal cs n s.candles).0,
          record s { candles = (ingest_all terminal cs n s.candles).1 },
        )
    unfolding history_loop ingest_all
    history_loop-ingest_all terminal [] n s here = refl
    history_loop-ingest_all terminal (c ∷ cs) n s here =
        let (r, candles) = ingest_candle terminal (with_closed true c) s.candles in
        let stored = store_candle_of_terminal terminal (with_closed true c) s here in
        rw (history_loop, ap (λ p. p.0) stored, ap (λ p. p.1) stored)
          (history_loop-ingest_all terminal cs (tally r n) (record s { candles = candles }) here)

module _ {W : Type 0} ⦃d : Double W⦄ where
  pub ingest_all-IsCandleTable :
      (terminal : String) (cs : List (CandleDto W)) (n : Counts) (s : CandleStore W)
      → all is_candle cs ≡ true
      → IsCandleTable s
      → IsCandleTable (ingest_all terminal cs n s).1
  unfolding ingest_all
  ingest_all-IsCandleTable terminal [] n s fine t = t
  ingest_all-IsCandleTable terminal (c ∷ cs) n s fine t = elim (Bool-cases (is_candle c)) [
    | inr e ↦ let bad : false ≡ true = rw e at fine in cc
    | inl e ↦
        ingest_all-IsCandleTable terminal cs _ _ (rw e at fine)
          (ingest_candle-IsCandleTable terminal (with_closed true c) s (is_candle-is_ohlc c e) t)
  ]

  ingest_all-Reaches :
      (n : ℕ) (terminal : String) (c : CandleDto W) (cs : List (CandleDto W)) (m : Counts)
      (s : CandleStore W)
      → all is_candle cs ≡ true
      → IsCandleTable s
      → Reaches terminal c n s.rows
      → Reaches terminal c n (ingest_all terminal cs m s).1.rows
  unfolding ingest_all
  ingest_all-Reaches n terminal c [] m s fine t r = r
  ingest_all-Reaches n terminal c (x ∷ cs) m s fine t r = elim (Bool-cases (is_candle x)) [
    | inr e ↦ let bad : false ≡ true = rw e at fine in cc
    | inl e ↦
        ingest_all-Reaches n terminal c cs _ _ (rw e at fine)
          (ingest_candle-IsCandleTable terminal (with_closed true x) s (is_candle-is_ohlc x e) t)
          (ingest-Reaches terminal c n terminal (with_closed true x) s t.ids r)
  ]

  -- One pass closes every candle of the batch.
  pub ingest_all-closes :
      (terminal : String) (cs : List (CandleDto W)) (n : Counts) (s : CandleStore W)
      → all is_candle cs ≡ true
      → IsCandleTable s
      → All (λ c. Reaches terminal (with_closed true c) 0 (ingest_all terminal cs n s).1.rows) cs
  unfolding ingest_all
  ingest_all-closes terminal [] n s fine t = tt
  ingest_all-closes terminal (c ∷ cs) n s fine t = elim (Bool-cases (is_candle c)) [
    | inr e ↦ let bad : false ≡ true = rw e at fine in cc
    | inl e ↦
        let (row, found, closed) = ingest-IsClosed terminal (with_closed true c) s refl in
        let next =
          ingest_candle-IsCandleTable terminal (with_closed true c) s (is_candle-is_ohlc c e) t in
        (
          ingest_all-Reaches 0 terminal (with_closed true c) cs _ _ (rw e at fine) next
              (row, found, closed, omega arith),
          ingest_all-closes terminal cs _ _ (rw e at fine) next,
        )
  ]

  -- A pass over candles that are closed settles them.
  pub ingest_all-settles :
      (terminal : String) (cs : List (CandleDto W)) (n : Counts) (s : CandleStore W)
      → all is_candle cs ≡ true
      → IsCandleTable s
      → All (λ c. Reaches terminal (with_closed true c) 0 s.rows) cs
      → All (λ c. IsSettled terminal (with_closed true c) (ingest_all terminal cs n s).1) cs
  unfolding ingest_all
  ingest_all-settles terminal [] n s fine t closed = tt
  ingest_all-settles terminal (c ∷ cs) n s fine t ((e, found, done, _), closed) =
      elim (Bool-cases (is_candle c)) [
        | inr i ↦ let bad : false ≡ true = rw i at fine in cc
        | inl i ↦
            let next =
              ingest_candle-IsCandleTable terminal (with_closed true c) s (is_candle-is_ohlc c i)
                t in
            let settled =
              ingest_of_IsClosed terminal (with_closed true c) s refl (e, found, done) in
            (
              ingest_all-Reaches c.revision terminal (with_closed true c) cs _ _ (rw i at fine) next
                  settled,
              ingest_all-settles terminal cs _ _ (rw i at fine) next (
                  All-map' cs
                    (λ x r.
                      ingest-Reaches terminal (with_closed true x) 0 terminal (with_closed true c) s
                        t.ids r)
                    closed),
            )
      ]

  -- A pass over candles that are settled counts duplicates only.
  pub ingest_all_of_settled :
      (terminal : String) (cs : List (CandleDto W)) (n : Counts) (s : CandleStore W)
      → All (λ c. IsSettled terminal (with_closed true c) s) cs
      → ingest_all terminal cs n s ≡ (record n { duplicated = length cs + n.duplicated }, s)
  unfolding ingest_all
  ingest_all_of_settled terminal [] n s settled =
      let same : 0 + n.duplicated ≡ n.duplicated = omega arith in rw same refl
  ingest_all_of_settled terminal (c ∷ cs) n s (here, settled) =
      let same : length cs + suc n.duplicated ≡ suc (length cs) + n.duplicated = omega arith in
      rw
        (
          ingest_of_IsSettled terminal (with_closed true c) s refl here,
          ingest_all_of_settled terminal cs (tally duplicated n) s settled,
        )
        (rw same refl)
