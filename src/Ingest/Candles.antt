-- ===== src/Ingest/Candles.antt =====
-- apps/api/src/modules/mql5-gateway/ingestion.service.ts, `ingestCandle`: candles that are sent again.
use mathlib.Core.Option.{some-injective}
use mmxm.Prelude.{
  ℕ, ◌≤◌, ◌≡◌, refl, ◌∙◌, ap, ◌==◌, ==_iff, Bool, true, none, some, List, [], ◌∷◌, ◌++◌, map,
  String, same_text_refl, leb, ltb, if◌then◌else◌, find, Bool-cases, Option-cases, inl, inr, arith,
}
use mmxm.Types.{Timeframe, m1, m5, m15, h1, h4, d1}
use mmxm.Wire.{CandleDto}
use mmxm.Ingest.{
  CandleRow, CandleStore, duplicated, is_row_of, update_row, corrected, progressed, row_of,
  ingest_new, ingest_existing, ingest_with, ingest_candle, same_timeframe,
}

module _ {A : Type 0} (p : A → Bool) where
  pub find-map :
      (u : A → A) (xs : List A) {e : A}
      → ((x : A) → p (u x) ≡ p x)
      → find p xs ≡ some e
      → find p (map u xs) ≡ some (u e)
  find-map u [] h found = cc
  find-map u (x ∷ xs) {e} h found = elim (Bool-cases (p x)) [
    | inl t ↦
        let same : some x ≡ some e = rw t at found in
        rw (h x, t) (ap (λ y. some (u y)) (some-injective x e same))
    | inr t ↦ rw (h x, t) (find-map u xs h (rw t at found))
  ]

  find-append :
      (xs : List A) (y : A) → find p xs ≡ none → p y ≡ true → find p (xs ++ y ∷ []) ≡ some y
  find-append [] y h t = rw t refl
  find-append (x ∷ xs) y h t = elim (Bool-cases (p x)) [
    | inl k ↦ let bad : some x ≡ none = rw k at h in cc
    | inr k ↦ rw k (find-append xs y (rw k at h) t)
  ]

pub same_timeframe_refl : (t : Timeframe) → same_timeframe t t ≡ true
same_timeframe_refl m1 = refl
same_timeframe_refl m5 = refl
same_timeframe_refl m15 = refl
same_timeframe_refl h1 = refl
same_timeframe_refl h4 = refl
same_timeframe_refl d1 = refl

module _ {W : Type 0} (terminal : String) (c : CandleDto W) where
  is_row_of-row_of : (id : ℕ) → is_row_of terminal c (row_of terminal c id) ≡ true
  unfolding is_row_of row_of
  is_row_of-row_of id =
      rw
        (
          same_text_refl terminal,
          same_text_refl c.broker_symbol,
          same_timeframe_refl c.timeframe,
          (==_iff c.open_time c.open_time).1 refl,
        )
        refl

  -- The store has a closed row for the candle.
  abbrev pub IsClosed : CandleStore W → Type 0
  IsClosed s =
      (e : CandleRow W) × (find (is_row_of terminal c) s.rows ≡ some e) × (e.is_closed ≡ true)

  -- And no older a revision.
  abbrev pub IsSettled : CandleStore W → Type 0
  IsSettled s =
      (e : CandleRow W) × (find (is_row_of terminal c) s.rows ≡ some e)
      × (e.is_closed ≡ true)
      × (c.revision ≤ e.revision)

  pub ingest_of_IsSettled :
      (s : CandleStore W)
      → c.is_closed ≡ true
      → IsSettled s
      → ingest_candle terminal c s ≡ (duplicated, s)
  unfolding ingest_candle ingest_with ingest_existing
  ingest_of_IsSettled s closed (e, found, done, recent) =
      let late : leb c.revision e.revision ≡ true = ground arith in
      rw (found, done, closed, late) refl

  update-keeps :
      (id : ℕ) (f : CandleRow W → CandleRow W) (s : CandleStore W) {e : CandleRow W}
      → ((r : CandleRow W) → is_row_of terminal c (f r) ≡ is_row_of terminal c r)
      → find (is_row_of terminal c) s.rows ≡ some e
      → e.id ≡ id
      → find (is_row_of terminal c) (update_row id f s.rows) ≡ some (f e)
  unfolding update_row
  update-keeps id f s {e} h found same =
      let kept : (r : CandleRow W)
          → is_row_of terminal c (if r.id == id then f r else r) ≡ is_row_of terminal c r =
        λ r. elim (Bool-cases (r.id == id)) [ inl t ↦ rw t (h r) | inr t ↦ rw t refl ] in
      let hit : (e.id == id) ≡ true = (==_iff e.id id).1 same in
      find-map (is_row_of terminal c) (λ r. if r.id == id then f r else r) s.rows kept found
      ∙ (rw hit refl)

  ingest_new-IsSettled :
      (s : CandleStore W)
      → c.is_closed ≡ true
      → find (is_row_of terminal c) s.rows ≡ none
      → IsSettled (ingest_new terminal c s).1
  unfolding ingest_new row_of
  ingest_new-IsSettled s closed absent = (
    row_of terminal c s.next_id,
    find-append (is_row_of terminal c) s.rows (row_of terminal c s.next_id) absent
        (is_row_of-row_of s.next_id),
    closed,
    omega arith,
  )

  corrected-key : (r : CandleRow W) → is_row_of terminal c (corrected c r) ≡ is_row_of terminal c r
  unfolding is_row_of corrected
  corrected-key r = refl

  progressed-key :
      (r : CandleRow W) → is_row_of terminal c (progressed c r) ≡ is_row_of terminal c r
  unfolding is_row_of progressed
  progressed-key r = refl

  -- A closed candle that meets a closed row leaves a row that is settled.
  pub ingest_of_IsClosed :
      (s : CandleStore W)
      → c.is_closed ≡ true
      → IsClosed s
      → IsSettled (ingest_candle terminal c s).1
  unfolding ingest_candle ingest_with ingest_existing corrected is_row_of
  ingest_of_IsClosed s closed (e, found, done) = elim (Bool-cases (leb c.revision e.revision)) [
    | inl late ↦ rw (found, done, closed, late) (e, found, done, ground arith)
    | inr newer ↦
        let more : ltb e.revision c.revision ≡ true = ground arith in
        rw (found, done, closed, newer, more)
          (
            corrected c e,
            update-keeps e.id (corrected c) s corrected-key found refl,
            done,
            omega arith,
          )
  ]

  pub ingest-IsClosed :
      (s : CandleStore W) → c.is_closed ≡ true → IsClosed (ingest_candle terminal c s).1
  unfolding ingest_candle ingest_with ingest_existing progressed
  ingest-IsClosed s closed = elim (Option-cases (find (is_row_of terminal c) s.rows)) [
    | inl absent ↦
        let (e, found, done, recent) = ingest_new-IsSettled s closed absent in
        rw absent (e, found, done)
    | inr (e, found) ↦ elim (Bool-cases e.is_closed) [
      | inl done ↦
          let (e', found', done', recent) = ingest_of_IsClosed s closed (e, found, done) in
          (e', found', done')
      | inr open_row ↦
          rw (found, open_row)
            (progressed c e, update-keeps e.id (progressed c) s progressed-key found refl, closed)
    ]
  ]

  -- Once a closed candle has been sent twice, it is answered as a duplicate and the store stays as
  -- it is. The first time may create the row or close an open one, which leaves its revision.
  pub resend_settles :
      (s : CandleStore W)
      → c.is_closed ≡ true
      → (let twice = (ingest_candle terminal c (ingest_candle terminal c s).1).1 in
          ingest_candle terminal c twice ≡ (duplicated, twice))
  resend_settles s closed =
      let once = (ingest_candle terminal c s).1 in
      ingest_of_IsSettled (ingest_candle terminal c once).1 closed
        (ingest_of_IsClosed once closed (ingest-IsClosed s closed))

  -- Sent a second time at once, a closed candle that was new is a duplicate already.
  pub resend_new :
      (s : CandleStore W)
      → c.is_closed ≡ true
      → find (is_row_of terminal c) s.rows ≡ none
      → (let once = (ingest_candle terminal c s).1 in
          ingest_candle terminal c once ≡ (duplicated, once))
  unfolding ingest_candle ingest_with
  resend_new s closed absent =
      let here : ingest_candle terminal c s ≡ ingest_new terminal c s = rw absent refl in
      rw here (
        ingest_of_IsSettled (ingest_new terminal c s).1 closed
          (ingest_new-IsSettled s closed absent))
