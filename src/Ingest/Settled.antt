-- ===== src/Ingest/Settled.antt =====
-- apps/api/src/modules/mql5-gateway/ingestion.service.ts, `ingestCandle`: what a row has reached stays.
use mmxm.Prelude.{
  ℕ, ◌≤◌, ◌≡◌, ◌≢◌, refl, sym, ◌∙◌, ap, inl, inr, ◌==◌, ==_iff, Bool, true, some, List, [], ◌∷◌,
  ◌++◌, map, String, if◌then◌else◌, find, Distinct, Memᴰ, Bool-cases, Option-cases, arith,
}
use mmxm.Prelude.Loops.{All-mem, find_sound}
use mmxm.Wire.{CandleDto}
use mmxm.Ingest.{
  CandleRow, CandleStore, is_row_of, update_row, corrected, progressed, ingest_new, ingest_with,
  ingest_candle,
}
use mmxm.Ingest.Candles.{find-map}
use mmxm.Ingest.Keys.{row_id, existing_cases}

module _ {A : Type 0} (p : A → Bool) where
  find-append_some : (xs ys : List A) {e : A} → find p xs ≡ some e → find p (xs ++ ys) ≡ some e
  find-append_some [] ys found = cc
  find-append_some (x ∷ xs) ys {e} found = elim (Bool-cases (p x)) [
    | inl t ↦ let same : some x ≡ some e = rw t at found in rw t same
    | inr t ↦ rw t (find-append_some xs ys (rw t at found))
  ]

mem-map : {A B : Type 0} (f : A → B) (xs : List A) {x : A} → Memᴰ x xs → Memᴰ (f x) (map f xs)
mem-map f [] m = elim m [ ]
mem-map f (y ∷ xs) (Memᴰ.head e) = Memᴰ.head (ap f e)
mem-map f (y ∷ xs) (Memᴰ.tail m) = Memᴰ.tail (mem-map f xs m)

-- Where the column is distinct, a value has one row.
mem_Distinct :
    {A : Type 0} (f : A → ℕ) (xs : List A) {x y : A}
    → Distinct (map f xs)
    → Memᴰ x xs
    → Memᴰ y xs
    → f x ≡ f y
    → x ≡ y
mem_Distinct f [] d m n e = elim m [ ]
mem_Distinct f (z ∷ xs) (other, d) (Memᴰ.head i) (Memᴰ.head j) e = i ∙ sym j
mem_Distinct f (z ∷ xs) (other, d) (Memᴰ.head i) (Memᴰ.tail n) e =
    absurd (All-mem (λ i. f z ≢ i) (map f xs) other (mem-map f xs n) (ap f (sym i) ∙ e))
mem_Distinct f (z ∷ xs) (other, d) (Memᴰ.tail m) (Memᴰ.head j) e =
    absurd (All-mem (λ i. f z ≢ i) (map f xs) other (mem-map f xs m) (ap f (sym j) ∙ sym e))
mem_Distinct f (z ∷ xs) (other, d) (Memᴰ.tail m) (Memᴰ.tail n) e = mem_Distinct f xs d m n e

module _ {W : Type 0} (terminal : String) (c : CandleDto W) where
  -- The rows have a closed row for the candle, with at least this revision.
  abbrev pub Reaches : ℕ → List (CandleRow W) → Type 0
  Reaches n rows =
      (e : CandleRow W) × (find (is_row_of terminal c) rows ≡ some e)
      × (e.is_closed ≡ true)
      × (n ≤ e.revision)

  -- An update of one row, which leaves keys and does not take revisions back where it writes a closed row.
  update-Reaches :
      (n : ℕ) (rows : List (CandleRow W)) (e' : CandleRow W) (f : CandleRow W → CandleRow W)
      → Distinct (map row_id rows)
      → Memᴰ e' rows
      → ((r : CandleRow W) → is_row_of terminal c (f r) ≡ is_row_of terminal c r)
      → (e'.is_closed ≡ true → ((f e').is_closed ≡ true) × (e'.revision ≤ (f e').revision))
      → Reaches n rows
      → Reaches n (update_row e'.id f rows)
  unfolding update_row
  update-Reaches n rows e' f ids m keys grows (e, found, closed, reached) =
      let kept : (r : CandleRow W)
          → is_row_of terminal c (if r.id == e'.id then f r else r) ≡ is_row_of terminal c r =
        λ r. elim (Bool-cases (r.id == e'.id)) [ inl i ↦ rw i (keys r) | inr i ↦ rw i refl ] in
      let now_found =
        find-map (is_row_of terminal c) (λ r. if r.id == e'.id then f r else r) rows kept found in
      elim (Bool-cases (e.id == e'.id)) [
        | inr i ↦ (e, now_found ∙ rw i refl, closed, reached)
        | inl i ↦
            let same : e ≡ e' =
              mem_Distinct row_id rows ids (find_sound (is_row_of terminal c) rows found).1 m
                ((==_iff e.id e'.id).0 i) in
            let (still, more) = grows (rw same at closed) in
            let enough : n ≤ e'.revision = rw same at reached in
            (f e, now_found ∙ rw i refl, rw same still, rw same (omega arith))
      ]

  -- No candle, of whatever key and revision, takes back what a row has reached.
  pub ingest-Reaches :
      (n : ℕ) (other : String) (c' : CandleDto W) (s : CandleStore W)
      → Distinct (map row_id s.rows)
      → Reaches n s.rows
      → Reaches n (ingest_candle other c' s).1.rows
  unfolding ingest_candle ingest_with ingest_new corrected progressed is_row_of
  ingest-Reaches n other c' s ids (e, found, closed, reached) =
      elim (Option-cases (find (is_row_of other c') s.rows)) [
        | inl absent ↦
            rw absent (e, find-append_some (is_row_of terminal c) s.rows _ found, closed, reached)
        | inr (e', found') ↦
            let m = (find_sound (is_row_of other c') s.rows found').1 in
            rw found' (elim (existing_cases c' e' s) [
              | inl (same, _) ↦ rw same (e, found, closed, reached)
              | inr (inl (same, newer)) ↦ rw same (
                  update-Reaches n s.rows e' (corrected c') ids m (λ r. refl)
                    (λ k. (k, omega arith)) (e, found, closed, reached))
              | inr (inr (same, going)) ↦ rw same (
                  update-Reaches n s.rows e' (progressed c') ids m (λ r. refl) (λ k. cc)
                    (e, found, closed, reached))
            ])
      ]
