-- ===== src/Ingest/Keys.antt =====
-- apps/api/src/modules/mql5-gateway/ingestion.service.ts, `ingestCandle`: what the table of candles keeps.
use mmxm.Prelude.{
  ℕ, suc, ◌<◌, ◌≡◌, ◌≢◌, refl, ap, ◌==◌, ==_iff, true, false, none, List, [], ◌∷◌, ◌++◌, map,
  String, same_text_iff, leb, ltb, find, All, Distinct, Bool-cases, Option-cases, inl, inr, ◌⊎◌,
  arith,
}
use mmxm.Prelude.Loops.{All-append, All-map, All-map', find-none, Distinct-append, map-append}
use mmxm.Double.{Double}
use mmxm.Types.{Timeframe}
use mmxm.Wire.{CandleDto, is_ohlc}
use mmxm.Ingest.{
  CandleRow, CandleStore, Revision, accepted, duplicated, revised, is_row_of, update_row, corrected,
  progressed, row_of, ingest_new, ingest_existing, ingest_with, ingest_candle,
}
use mmxm.Ingest.Candles.{same_timeframe_refl}

-- What a row of the table is unique by.
record RowKey : Type 0 where
  terminal : String
  broker_symbol : String
  timeframe : Timeframe
  open_time : ℕ

module _ {W : Type 0} where
  abbrev row_key_of : String → CandleDto W → RowKey
  row_key_of terminal c = record {
    terminal = terminal;
    broker_symbol = c.broker_symbol;
    timeframe = c.timeframe;
    open_time = c.open_time;
  }

  abbrev key : CandleRow W → RowKey
  key r = record {
    terminal = r.terminal;
    broker_symbol = r.broker_symbol;
    timeframe = r.timeframe;
    open_time = r.open_time;
  }

  abbrev pub row_id : CandleRow W → ℕ
  row_id r = r.id

  is_row_of_complete :
      (terminal : String) (c : CandleDto W) (r : CandleRow W)
      → key r ≡ row_key_of terminal c
      → is_row_of terminal c r ≡ true
  unfolding is_row_of
  is_row_of_complete terminal c r e =
      rw
        (
          (same_text_iff r.terminal terminal).1 (ap (λ k. k.terminal) e),
          (same_text_iff r.broker_symbol c.broker_symbol).1 (ap (λ k. k.broker_symbol) e),
          ap (λ k. k.timeframe) e,
          same_timeframe_refl c.timeframe,
          (==_iff r.open_time c.open_time).1 (ap (λ k. k.open_time) e),
        )
        refl

  abbrev pub revision_of : CandleDto W → CandleRow W → Revision W
  revision_of c e = record {
    candle_id = e.id;
    revision = c.revision;
    old_ohlc = e.ohlc;
    new_ohlc = c.ohlc;
  }

  -- The ways to meet a row: nothing is done, a correction is written, an open candle goes on.
  pub existing_cases :
      (c : CandleDto W) (e : CandleRow W) (s : CandleStore W)
      → ((ingest_existing c e s ≡ (duplicated, s)) × (e.is_closed ≡ true))
        ⊎ (((ingest_existing c e s ≡ (
          revised,
          record s {
            revisions = s.revisions ++ revision_of c e ∷ [];
            rows = update_row e.id (corrected c) s.rows;
          },
        ))
              × (e.revision < c.revision))
            ⊎ ((ingest_existing c e s
                  ≡ (accepted, record s { rows = update_row e.id (progressed c) s.rows }))
                × (e.is_closed ≡ false)))
  unfolding ingest_existing
  existing_cases c e s = elim (Bool-cases e.is_closed) [
    | inr going ↦ inr (inr (rw going refl, going))
    | inl done ↦ elim (Bool-cases c.is_closed) [
      | inr going ↦ inl (rw (done, going) refl, done)
      | inl closed ↦ elim (Bool-cases (leb c.revision e.revision)) [
        | inl late ↦ inl (rw (done, closed, late) refl, done)
        | inr newer ↦
            let more : ltb e.revision c.revision ≡ true = ground arith in
            inr (inl (rw (done, closed, newer, more) refl, ground arith))
      ]
    ]
  ]

  -- An update that leaves the value of `f` leaves its column.
  map-update_row :
      {B : Type 0} (f : CandleRow W → B) (id : ℕ) (u : CandleRow W → CandleRow W)
      (rows : List (CandleRow W))
      → ((r : CandleRow W) → f (u r) ≡ f r)
      → map f (update_row id u rows) ≡ map f rows
  unfolding update_row
  map-update_row f id u [] h = refl
  map-update_row f id u (r ∷ rows) h = elim (Bool-cases (r.id == id)) [
    | inl e ↦ rw (e, h r, map-update_row f id u rows h) refl
    | inr e ↦ rw (e, map-update_row f id u rows h) refl
  ]

  All-update_row :
      (P : CandleRow W → Type 0) (id : ℕ) (u : CandleRow W → CandleRow W)
      (rows : List (CandleRow W))
      → ((r : CandleRow W) → P r → P (u r))
      → All P rows
      → All P (update_row id u rows)
  unfolding update_row
  All-update_row P id u [] h p = tt
  All-update_row P id u (r ∷ rows) h (p, ps) = elim (Bool-cases (r.id == id)) [
    | inl e ↦ rw e (h r p, All-update_row P id u rows h ps)
    | inr e ↦ rw e (p, All-update_row P id u rows h ps)
  ]

module _ {W : Type 0} ⦃d : Double W⦄ where
  -- The ids are distinct and come before the next one, no two rows have the same terminal, symbol,
  -- timeframe and opening time, and the prices of every row are in order.
  pub record IsCandleTable (s : CandleStore W) : Type 0 where
    pub ids : Distinct (map row_id s.rows)
    pub before_next : All (λ r. r.id < s.next_id) s.rows
    pub keys : Distinct (map key s.rows)
    pub prices : All (λ r. is_ohlc r.ohlc ≡ true) s.rows

  ingest_new-IsCandleTable :
      (terminal : String) (c : CandleDto W) (s : CandleStore W)
      → is_ohlc c.ohlc ≡ true
      → find (is_row_of terminal c) s.rows ≡ none
      → IsCandleTable s
      → IsCandleTable (ingest_new terminal c s).1
  unfolding ingest_new row_of
  ingest_new-IsCandleTable terminal c s fine absent t =
      let r = row_of terminal c s.next_id in
      let other : All (λ k. k ≢ row_key_of terminal c) (map key s.rows) =
        All-map (λ k. k ≢ row_key_of terminal c) key s.rows
          (All-map' s.rows (λ x miss same. let hit = is_row_of_complete terminal c x same in cc)
            (find-none (is_row_of terminal c) s.rows absent)) in
      let earlier : All (λ i. i ≢ s.next_id) (map row_id s.rows) =
        All-map (λ i. i ≢ s.next_id) row_id s.rows
          (All-map' s.rows (λ x less same. omega arith) t.before_next) in
      record {
        ids =
            rw (map-append row_id s.rows (r ∷ []))
              (Distinct-append (map row_id s.rows) s.next_id t.ids earlier);
        before_next =
            All-append (λ x. x.id < suc s.next_id) s.rows (r ∷ [])
              (All-map' s.rows (λ x less. omega arith) t.before_next) (omega arith, tt);
        keys =
            rw (map-append key s.rows (r ∷ []))
              (Distinct-append (map key s.rows) (row_key_of terminal c) t.keys other);
        prices = All-append (λ x. is_ohlc x.ohlc ≡ true) s.rows (r ∷ []) t.prices (fine, tt);
      }

  update-IsCandleTable :
      (c : CandleDto W) (id : ℕ) (u : CandleRow W → CandleRow W) (s : CandleStore W)
      (revisions : List (Revision W))
      → is_ohlc c.ohlc ≡ true
      → ((r : CandleRow W)
          → (row_id (u r) ≡ row_id r) × (key (u r) ≡ key r) × ((u r).ohlc ≡ c.ohlc))
      → IsCandleTable s
      → IsCandleTable (record s { rows = update_row id u s.rows; revisions = revisions })
  update-IsCandleTable c id u s revisions fine h t = record {
    ids = rw (map-update_row row_id id u s.rows (λ r. (h r).0)) t.ids;
    before_next =
        All-update_row (λ r. r.id < s.next_id) id u s.rows
          (λ r less. let same = (h r).0 in omega arith) t.before_next;
    keys = rw (map-update_row key id u s.rows (λ r. (h r).1)) t.keys;
    prices =
        All-update_row (λ r. is_ohlc r.ohlc ≡ true) id u s.rows (λ r _. rw ((h r).2) fine) t.prices;
  }

  -- The invariant of the table is kept by every candle whose prices are in order, which the schema
  -- of a candle asks.
  pub ingest_candle-IsCandleTable :
      (terminal : String) (c : CandleDto W) (s : CandleStore W)
      → is_ohlc c.ohlc ≡ true
      → IsCandleTable s
      → IsCandleTable (ingest_candle terminal c s).1
  unfolding ingest_candle ingest_with corrected progressed
  ingest_candle-IsCandleTable terminal c s fine t =
      elim (Option-cases (find (is_row_of terminal c) s.rows)) [
        | inl absent ↦ rw absent (ingest_new-IsCandleTable terminal c s fine absent t)
        | inr (e, found) ↦ rw found (elim (existing_cases c e s) [
          | inl (same, done) ↦ rw same t
          | inr (inl (same, newer)) ↦ rw same (
              update-IsCandleTable c e.id (corrected c) s (s.revisions ++ revision_of c e ∷ []) fine
                (λ r. (refl, refl, refl)) t)
          | inr (inr (same, going)) ↦ rw same (
              update-IsCandleTable c e.id (progressed c) s s.revisions fine
                (λ r. (refl, refl, refl)) t)
        ])
      ]
