-- ===== src/Candles/Sorted.antt =====
-- apps/worker/src/candles.ts: what the engine gets from the table that the gateway fills.
use mmxm.Prelude.{
  ℕ, ◌≤◌, ◌<◌, ◌≡◌, ◌≢◌, refl, sym, ap, ◌⊎◌, inl, inr, ◌==◌, ==_iff, Bool, true, false, List, [],
  ◌∷◌, ◌++◌, map, ltb, leb, filter, take, sort_by, insert_by, All, Distinct, Bool-cases, leb→le,
  arith,
}
use mmxm.Prelude.Loops.{
  All-filter, All-map, All-map', All-map₂, All-mem, All-of_mem, mem-take, filter-All,
  Distinct-append,
}
use mmxm.Double.{Double}
use mmxm.Types.{Candle, Timeframe}
use mmxm.Wire.{is_ohlc}
use mmxm.Ingest.{CandleRow, CandleStore, same_timeframe}
use mmxm.Ingest.Keys.{IsCandleTable}
use mmxm.Candles.{upsert, by_time, ascending, load_candle_range}
use mmxm.Candles.Recent.{earliest, is_recent, newest_rows, to_candle, load_candles}

module _ {A : Type 0} (le : A → A → Bool) (P : A → Type 0) where
  pub All-insert_by : (y : A) (xs : List A) → P y → All P xs → All P (insert_by le y xs)
  All-insert_by y [] p ps = (p, tt)
  All-insert_by y (x ∷ xs) p (q, qs) = elim (Bool-cases (le y x)) [
    | inl e ↦ rw e (p, (q, qs))
    | inr e ↦ rw e (q, All-insert_by y xs p qs)
  ]

  pub All-sort_by : (xs : List A) → All P xs → All P (sort_by le xs)
  All-sort_by [] h = tt
  All-sort_by (x ∷ xs) (p, ps) = All-insert_by x (sort_by le xs) p (All-sort_by xs ps)

module _ {W : Type 0} where
  abbrev time : Candle W → ℕ
  time c = c.open_time

  -- Every candle opens after those before it.
  abbrev pub IsAscending : List (Candle W) → Type 0
  IsAscending [] = Unit
  IsAscending (c ∷ cs) = All (λ x. c.open_time < x.open_time) cs × IsAscending cs

  upsert_times :
      (r : Candle W) (m : List (Candle W))
      → (map time (upsert r m) ≡ map time m)
        ⊎ ((map time (upsert r m) ≡ map time m ++ r.open_time ∷ [])
            × All (λ t. t ≢ r.open_time) (map time m))
  unfolding upsert
  upsert_times r [] = inr (refl, tt)
  upsert_times r (x ∷ xs) = elim (Bool-cases (x.open_time == r.open_time)) [
    | inl e ↦
        let same = (==_iff x.open_time r.open_time).0 e in
        elim (Bool-cases (ltb x.revision r.revision)) [
          | inl k ↦ inl (rw (e, k) (ap (λ t. t ∷ map time xs) (sym same)))
          | inr k ↦ inl (rw (e, k) refl)
        ]
    | inr e ↦ elim (upsert_times r xs) [
      | inl h ↦ inl (rw e (ap (◌∷◌ x.open_time) h))
      | inr (h, other) ↦ inr (
        rw e (ap (◌∷◌ x.open_time) h),
        (λ same. let hit = (==_iff x.open_time r.open_time).1 same in cc, other),
      )
    ]
  ]

  by_time-Distinct :
      (m rows : List (Candle W)) → Distinct (map time m) → Distinct (map time (by_time m rows))
  unfolding by_time
  by_time-Distinct m [] d = d
  by_time-Distinct m (r ∷ rows) d = by_time-Distinct (upsert r m) rows (elim (upsert_times r m) [
    | inl h ↦ rw h d
    | inr (h, other) ↦ rw h (Distinct-append (map time m) r.open_time d other)
  ])

  module _ (P : Candle W → Type 0) where
    All-upsert : (r : Candle W) (m : List (Candle W)) → P r → All P m → All P (upsert r m)
    unfolding upsert
    All-upsert r [] p ps = (p, tt)
    All-upsert r (x ∷ xs) p (q, qs) = elim (Bool-cases (x.open_time == r.open_time)) [
      | inl e ↦ elim (Bool-cases (ltb x.revision r.revision)) [
        | inl k ↦ rw (e, k) (p, qs)
        | inr k ↦ rw (e, k) (q, qs)
      ]
      | inr e ↦ rw e (q, All-upsert r xs p qs)
    ]

    All-by_time : (m rows : List (Candle W)) → All P m → All P rows → All P (by_time m rows)
    unfolding by_time
    All-by_time m [] h ps = h
    All-by_time m (r ∷ rows) h (p, ps) = All-by_time (upsert r m) rows (All-upsert r m p h) ps

  abbrev earlier : Candle W → Candle W → Bool
  earlier a b = leb a.open_time b.open_time

  insert_by-IsAscending :
      (y : Candle W) (xs : List (Candle W))
      → All (λ x. y.open_time ≢ x.open_time) xs
      → IsAscending xs
      → IsAscending (insert_by earlier y xs)
  insert_by-IsAscending y [] apart h = (tt, tt)
  insert_by-IsAscending y (x ∷ xs) (ne, apart) (after, h) = elim (Bool-cases (earlier y x)) [
    | inl e ↦
        let first : y.open_time < x.open_time = before y.open_time x.open_time e ne in
        rw e ((first, All-map' xs (λ z l. omega arith) after), (after, h))
    | inr e ↦ rw e (
      All-insert_by earlier (λ z. x.open_time < z.open_time) y xs (ground arith) after,
      insert_by-IsAscending y xs apart h,
    )
  ]
    where
      before : (a b : ℕ) → leb a b ≡ true → a ≢ b → a < b
      before a b e ne = ground arith

  sort_by-IsAscending :
      (xs : List (Candle W)) → Distinct (map time xs) → IsAscending (sort_by earlier xs)
  sort_by-IsAscending [] d = tt
  sort_by-IsAscending (x ∷ xs) (other, d) =
      insert_by-IsAscending x (sort_by earlier xs)
        (All-sort_by earlier (λ z. x.open_time ≢ z.open_time) xs (of_map x xs other))
        (sort_by-IsAscending xs d)
    where
      of_map :
          (x : Candle W) (xs : List (Candle W))
          → All (λ t. x.open_time ≢ t) (map time xs)
          → All (λ z. x.open_time ≢ z.open_time) xs
      of_map x [] h = tt
      of_map x (z ∷ zs) (h, hs) = (h, of_map x zs hs)

recent_since :
    {W : Type 0} (tf : Timeframe) (now : ℕ) (r : CandleRow W)
    → is_recent tf now r ≡ true
    → earliest tf now ≤ r.open_time
unfolding is_recent
recent_since tf now r e = elim (Bool-cases (same_timeframe r.timeframe tf)) [
  | inr f ↦ let bad : false ≡ true = rw f at e in cc
  | inl f ↦ leb→le (earliest tf now) r.open_time (rw f at e)
]

module _ {W : Type 0} ⦃d : Double W⦄ where
  -- The four prices of a candle are in order.
  abbrev pub HasOrder : Candle W → Type 0
  HasOrder c =
      is_ohlc (record { opening = c.opening; high = c.high; low = c.low; close = c.close }) ≡ true

  -- What the worker loads from a table that the gateway has kept: candles of the timeframe's lookback,
  -- in order of their opening times with no time twice, each with its prices in order.
  pub load_candles-IsAscending :
      (limits : Timeframe → ℕ) (now : ℕ) (s : CandleStore W) (tf : Timeframe)
      → IsCandleTable s
      → IsAscending (load_candles limits now s.rows tf)
        × All
            (λ c. HasOrder c × (earliest tf now ≤ c.open_time))
            (load_candles limits now s.rows tf)
  unfolding load_candles load_candle_range ascending newest_rows to_candle
  load_candles-IsAscending limits now s tf t = elim (Bool-cases (limits tf == 0)) [
    | inl e ↦ rw e (tt, tt)
    | inr e ↦
        let P : Candle W → Type 0 = λ c. HasOrder c × (earliest tf now ≤ c.open_time) in
        let Q : CandleRow W → Type 0 = λ r. P (to_candle r) in
        let recent = filter (is_recent tf now) s.rows in
        let sorted = sort_by (λ a b. leb b.open_time a.open_time) recent in
        let fine : All Q recent =
          All-map₂ recent (λ r h k. (h, recent_since tf now r k))
            (All-filter (λ r. is_ohlc r.ohlc ≡ true) (is_recent tf now) s.rows t.prices)
            (filter-All (is_recent tf now) s.rows) in
        let all_sorted = All-sort_by (λ a b. leb b.open_time a.open_time) Q recent fine in
        let taken : All Q (take (limits tf) sorted) =
          All-of_mem (take (limits tf) sorted)
            (λ x m. All-mem Q sorted all_sorted (mem-take (limits tf) sorted m)) in
        let rows = map to_candle (take (limits tf) sorted) in
        rw e (
          sort_by-IsAscending (by_time [] rows) (by_time-Distinct [] rows tt),
          All-sort_by earlier P (by_time [] rows)
              (All-by_time P [] rows tt (All-map P to_candle (take (limits tf) sorted) taken)),
        )
  ]
