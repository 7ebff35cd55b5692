-- ===== src/Candles/Latest.antt =====
-- apps/worker/src/candles.ts: the loaded candles and the rows they come from.
use mmxm.Prelude.{
  ◌≤◌, ◌≡◌, refl, sym, ◌∙◌, Bool, List, [], ◌∷◌, ltb, leb, ◌==◌, ==_iff, sort_by, insert_by, Memᴰ,
  Bool-cases, inl, inr, arith, ◌⊎◌, ap, ltb→lt, ◌<◌,
}
use mmxm.Types.{Candle}
use mmxm.Candles.{upsert, by_time, ascending, load_candle_range}

-- The list has a candle of the same opening time that is no older a revision.
pub record Covers {W : Type 0} (m : List (Candle W)) (r : Candle W) : Type 0 where
  pub candle : Candle W
  pub inside : Memᴰ candle m
  pub same_time : candle.open_time ≡ r.open_time
  pub recent : r.revision ≤ candle.revision

module _ {A : Type 0} (le : A → A → Bool) where
  past :
      {x : A} (z : A) (xs : List A) (y : A)
      → ((x ≡ y) ⊎ Memᴰ x xs → Memᴰ x (insert_by le y xs))
      → (x ≡ y) ⊎ Memᴰ x (z ∷ xs)
      → Memᴰ x (z ∷ insert_by le y xs)
  past z xs y deeper (inl p) = Memᴰ.tail (deeper (inl p))
  past z xs y deeper (inr (Memᴰ.head p)) = Memᴰ.head p
  past z xs y deeper (inr (Memᴰ.tail m)) = Memᴰ.tail (deeper (inr m))

  mem-insert_by : {x : A} (y : A) (xs : List A) → (x ≡ y) ⊎ Memᴰ x xs → Memᴰ x (insert_by le y xs)
  mem-insert_by y [] (inl e) = Memᴰ.head e
  mem-insert_by y [] (inr m) = elim m [ ]
  mem-insert_by y (z ∷ xs) h = elim (Bool-cases (le y z)) [
    | inl e ↦ rw e (elim h [ inl p ↦ Memᴰ.head p | inr m ↦ Memᴰ.tail m ])
    | inr e ↦ rw e (past z xs y (λ i. mem-insert_by y xs i) h)
  ]

  sort_by-mem : {x : A} (xs : List A) → Memᴰ x xs → Memᴰ x (sort_by le xs)
  sort_by-mem [] m = elim m [ ]
  sort_by-mem (y ∷ xs) (Memᴰ.head e) = mem-insert_by y (sort_by le xs) (inl e)
  sort_by-mem (y ∷ xs) (Memᴰ.tail m) = mem-insert_by y (sort_by le xs) (inr (sort_by-mem xs m))

module _ {W : Type 0} where
  Covers-cons : {r : Candle W} (x : Candle W) (m : List (Candle W)) → Covers m r → Covers (x ∷ m) r
  Covers-cons x m c = record {
    candle = c.candle;
    inside = Memᴰ.tail c.inside;
    same_time = c.same_time;
    recent = c.recent;
  }

  Covers-head :
      (r x : Candle W) (m : List (Candle W))
      → x.open_time ≡ r.open_time
      → r.revision ≤ x.revision
      → Covers (x ∷ m) r
  Covers-head r x m e h = record { candle = x; inside = Memᴰ.head refl; same_time = e; recent = h }

  -- A row is covered once it is put in.
  Covers-upsert : (r : Candle W) (m : List (Candle W)) → Covers (upsert r m) r
  unfolding upsert
  Covers-upsert r [] = Covers-head r r [] refl (omega arith)
  Covers-upsert r (x ∷ xs) = elim (Bool-cases (x.open_time == r.open_time)) [
    | inr e ↦ rw e (Covers-cons x (upsert r xs) (Covers-upsert r xs))
    | inl e ↦ elim (Bool-cases (ltb x.revision r.revision)) [
      | inl k ↦ rw (e, k) (Covers-head r r xs refl (omega arith))
      | inr k ↦ rw (e, k) (Covers-head r x xs ((==_iff x.open_time r.open_time).0 e) (ground arith))
    ]
  ]

  other_time :
      (r c x : Candle W) (xs : List (Candle W))
      → (Memᴰ c xs
          → (k : Candle W) × Memᴰ k (upsert r xs)
            × (k.open_time ≡ c.open_time)
            × (c.revision ≤ k.revision))
      → Memᴰ c (x ∷ xs)
      → (k : Candle W) × Memᴰ k (x ∷ upsert r xs)
        × (k.open_time ≡ c.open_time)
        × (c.revision ≤ k.revision)
  other_time r c x xs deeper (Memᴰ.head p) = (c, Memᴰ.head p, refl, omega arith)
  other_time r c x xs deeper (Memᴰ.tail m) =
      let (k, inside, time, recent) = deeper m in (k, Memᴰ.tail inside, time, recent)

  replaced :
      (r c x : Candle W) (xs : List (Candle W))
      → x.open_time ≡ r.open_time
      → x.revision < r.revision
      → Memᴰ c (x ∷ xs)
      → (k : Candle W) × Memᴰ k (r ∷ xs) × (k.open_time ≡ c.open_time) × (c.revision ≤ k.revision)
  replaced r c x xs same older (Memᴰ.head p) =
      let time = ap (λ o. o.open_time) p in
      let revision = ap (λ o. o.revision) p in (r, Memᴰ.head refl, sym (time ∙ same), omega arith)
  replaced r c x xs same older (Memᴰ.tail m) = (c, Memᴰ.tail m, refl, omega arith)

  -- A candle that is there stays, or one takes its place that is no older a revision.
  upsert-keeps :
      (r c : Candle W) (m : List (Candle W))
      → Memᴰ c m
      → (k : Candle W) × Memᴰ k (upsert r m)
        × (k.open_time ≡ c.open_time)
        × (c.revision ≤ k.revision)
  unfolding upsert
  upsert-keeps r c [] m = elim m [ ]
  upsert-keeps r c (x ∷ xs) m = elim (Bool-cases (x.open_time == r.open_time)) [
    | inr e ↦ rw e (other_time r c x xs (λ i. upsert-keeps r c xs i) m)
    | inl e ↦
        let same : x.open_time ≡ r.open_time = (==_iff x.open_time r.open_time).0 e in
        elim (Bool-cases (ltb x.revision r.revision)) [
          | inl k ↦ rw (e, k) (replaced r c x xs same (ltb→lt x.revision r.revision k) m)
          | inr k ↦ rw (e, k) (c, m, refl, omega arith)
        ]
  ]

  upsert-Covers : (o r : Candle W) (m : List (Candle W)) → Covers m o → Covers (upsert r m) o
  upsert-Covers o r m c =
      let (k, inside, time, recent) = upsert-keeps r c.candle m c.inside in
      let before = c.recent in
      record { candle = k; inside = inside; same_time = time ∙ c.same_time; recent = omega arith }

  by_time-keeps : (o : Candle W) (m rows : List (Candle W)) → Covers m o → Covers (by_time m rows) o
  unfolding by_time
  by_time-keeps o m [] c = c
  by_time-keeps o m (r ∷ rows) c = by_time-keeps o (upsert r m) rows (upsert-Covers o r m c)

  by_time-Covers :
      (o : Candle W) (m rows : List (Candle W)) → Memᴰ o rows → Covers (by_time m rows) o
  unfolding by_time
  by_time-Covers o m [] h = elim h [ ]
  by_time-Covers o m (r ∷ rows) (Memᴰ.head p) =
      by_time-keeps o (upsert r m) rows (rw p (Covers-upsert r m))
  by_time-Covers o m (r ∷ rows) (Memᴰ.tail h) = by_time-Covers o (upsert r m) rows h

  -- For every row of the query, a candle of the same opening time is loaded, and its revision is not
  -- below the row's.
  pub load_candle_range-Covers :
      (rows : List (Candle W)) (o : Candle W) → Memᴰ o rows → Covers (load_candle_range rows) o
  unfolding load_candle_range ascending
  load_candle_range-Covers rows o h =
      let c = by_time-Covers o [] rows h in
      record {
        candle = c.candle;
        inside = sort_by-mem (λ a b. leb a.open_time b.open_time) (by_time [] rows) c.inside;
        same_time = c.same_time;
        recent = c.recent;
      }
