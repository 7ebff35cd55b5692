-- ===== src/MarketData/Newest.antt =====
-- apps/api/src/modules/market-data/market-data.controller.ts: that the candles are the newest of those asked for.
use mmxm.Prelude.{
  ℕ, zero, suc, ◌+◌, ◌≤◌, ◌≡◌, refl, sym, ap, ◌∙◌, ◌⊎◌, inl, inr, ◌==◌, ==_iff, Bool, true, List,
  [], ◌∷◌, ◌++◌, Memᴰ, reverse, length, any, filter, take, drop, ◌<◌, sort_by, insert_by, All,
  Bool-cases, arith, leb, le→leb,
}
use mathlib.Core.List.{reverse-cons}
use mmxm.Prelude.Filters.{tally, tally-sort_by, tally-take}
use mmxm.Prelude.Loops.{
  All-map', All-append, All-mem, All-of_mem, All-map₂, mem-cons_map, All-filter, mem-take,
  length-append, mem-append_left, mem-append_right, mem-filter, filter-All,
}
use mmxm.Candles.Sorted.{All-sort_by}
use mmxm.Ingest.{CandleRow}
use mmxm.MarketData.{CandlesQuery, is_asked, later, first_seen, candles}
use mmxm.MarketData.Chart.{
  IsAscending, IsFalling, All-reverse, sort_by-IsFalling, take-IsFalling, reverse-IsAscending,
  first_seen-IsDescending,
}

module _ {A : Type 0} where
  mem-reverse : {x : A} (xs : List A) → Memᴰ x xs → Memᴰ x (reverse xs)
  mem-reverse [] m = elim m [ ]
  mem-reverse (y ∷ xs) (Memᴰ.head e) =
      rw (reverse-cons y xs) (mem-append_right (reverse xs) (y ∷ []) (Memᴰ.head e))
  mem-reverse (y ∷ xs) (Memᴰ.tail m) =
      rw (reverse-cons y xs) (mem-append_left (reverse xs) (y ∷ []) (mem-reverse xs m))

  any-mem : (p : A → Bool) (xs : List A) → any p xs ≡ true → (x : A) × Memᴰ x xs × (p x ≡ true)
  any-mem p [] e = cc
  any-mem p (x ∷ xs) e = elim (Bool-cases (p x)) [
    | inl h ↦ (x, Memᴰ.head refl, h)
    | inr h ↦ let (y, m, k) = any-mem p xs (rw h at e) in (y, Memᴰ.tail m, k)
  ]

  mem-insert_by_head : (le : A → A → Bool) (y : A) (xs : List A) → Memᴰ y (insert_by le y xs)
  mem-insert_by_head le y [] = Memᴰ.head refl
  mem-insert_by_head le y (x ∷ xs) = elim (Bool-cases (le y x)) [
    | inl e ↦ rw e (Memᴰ.head refl)
    | inr e ↦ rw e (Memᴰ.tail (mem-insert_by_head le y xs))
  ]

  mem-insert_by_tail :
      (le : A → A → Bool) {z : A} (y : A) (xs : List A) → Memᴰ z xs → Memᴰ z (insert_by le y xs)
  mem-insert_by_tail le y (x ∷ xs) m = elim (Bool-cases (le y x)) [
    | inl e ↦ rw e (Memᴰ.tail m)
    | inr e ↦ rw e (mem-cons_map x xs (insert_by le y xs) (mem-insert_by_tail le y xs) m)
  ]
  mem-insert_by_tail le y [] m = elim m [ ]

  mem-sort_by_of : (le : A → A → Bool) {z : A} (xs : List A) → Memᴰ z xs → Memᴰ z (sort_by le xs)
  mem-sort_by_of le [] m = m
  mem-sort_by_of le (x ∷ xs) (Memᴰ.head e) = rw e (mem-insert_by_head le x (sort_by le xs))
  mem-sort_by_of le (x ∷ xs) (Memᴰ.tail m) =
      mem-insert_by_tail le x (sort_by le xs) (mem-sort_by_of le xs m)

  length-reverse : (xs : List A) → length (reverse xs) ≡ length xs
  length-reverse [] = refl
  length-reverse (x ∷ xs) =
      rw (reverse-cons x xs) (omega (arith, length-append (reverse xs) (x ∷ []), length-reverse xs))

  length-take_le : (n : ℕ) (xs : List A) → length (take n xs) ≤ n
  length-take_le zero xs = omega arith
  length-take_le (suc n) [] = omega arith
  length-take_le (suc n) (x ∷ xs) = omega (arith, length-take_le n xs)

module _ {W : Type 0} where
  All-first_seen :
      (P : CandleRow W → Type 0) (seen rows : List (CandleRow W))
      → All P seen
      → All P rows
      → All P (first_seen seen rows)
  unfolding first_seen
  All-first_seen P seen [] h k = h
  All-first_seen P seen (r ∷ rows) h (p, k) =
      elim (Bool-cases (any (λ s. s.open_time == r.open_time) seen)) [
        | inl e ↦ rw e (All-first_seen P seen rows h k)
        | inr e ↦ rw e (All-first_seen P (seen ++ r ∷ []) rows (All-append P seen _ h (p, tt)) k)
      ]

  length-first_seen :
      (seen rows : List (CandleRow W)) → length (first_seen seen rows) ≤ length seen + length rows
  unfolding first_seen
  length-first_seen seen [] = omega arith
  length-first_seen seen (r ∷ rows) =
      elim (Bool-cases (any (λ s. s.open_time == r.open_time) seen)) [
        | inl e ↦ rw e (omega (arith, length-first_seen seen rows))
        | inr e ↦
            rw e
              (omega (arith, length-first_seen (seen ++ r ∷ []) rows, length-append seen (r ∷ [])))
      ]

  mem-first_seen :
      {s : CandleRow W} (seen rows : List (CandleRow W))
      → Memᴰ s seen
      → Memᴰ s (first_seen seen rows)
  unfolding first_seen
  mem-first_seen seen [] m = m
  mem-first_seen seen (r ∷ rows) m =
      elim (Bool-cases (any (λ s. s.open_time == r.open_time) seen)) [
        | inl e ↦ rw e (mem-first_seen seen rows m)
        | inr e ↦ rw e (mem-first_seen (seen ++ r ∷ []) rows (mem-append_left seen (r ∷ []) m))
      ]

  -- A row of the time is there.
  abbrev pub HasTime : ℕ → List (CandleRow W) → Type 0
  HasTime t rows = (s : CandleRow W) × Memᴰ s rows × (s.open_time ≡ t)

  first_seen-HasTime :
      {x : CandleRow W} (seen rows : List (CandleRow W))
      → Memᴰ x rows
      → HasTime x.open_time (first_seen seen rows)
  unfolding first_seen
  first_seen-HasTime seen [] m = elim m [ ]
  first_seen-HasTime {x} seen (r ∷ rows) m =
      elim (Bool-cases (any (λ s. s.open_time == r.open_time) seen)) [
        | inl e ↦ rw e (elim m [
          | Memᴰ.head same ↦
              let (s, k, hit) = any-mem _ seen e in
              let time : s.open_time ≡ x.open_time =
                (==_iff s.open_time r.open_time).0 hit
                ∙ ap (λ (c : CandleRow W). c.open_time) (sym same) in
              (s, mem-first_seen seen rows k, time)
          | Memᴰ.tail k ↦ first_seen-HasTime seen rows k
        ])
        | inr e ↦ rw e (elim m [
          | Memᴰ.head same ↦ (
            r,
            mem-first_seen (seen ++ r ∷ []) rows (mem-append_right seen (r ∷ []) (Memᴰ.head refl)),
            ap (λ (c : CandleRow W). c.open_time) (sym same),
          )
          | Memᴰ.tail k ↦ first_seen-HasTime (seen ++ r ∷ []) rows k
        ])
      ]

  mem_split :
      {x : CandleRow W} (n : ℕ) (xs : List (CandleRow W))
      → IsFalling xs
      → Memᴰ x xs
      → Memᴰ x (take n xs)
        ⊎ ((length (take n xs) ≡ n)
            × Memᴰ x (drop n xs)
            × All (λ s. x.open_time ≤ s.open_time) (take n xs))
  mem_split zero xs f m = inr (refl, m, tt)
  mem_split (suc n) [] f m = elim m [ ]
  mem_split (suc n) (y ∷ xs) (after, f) (Memᴰ.head e) = inl (Memᴰ.head e)
  mem_split (suc n) (y ∷ xs) (after, f) (Memᴰ.tail m) = elim (mem_split n xs f m) [
    | inl k ↦ inl (Memᴰ.tail k)
    | inr (full, rest, below) ↦ inr (ap suc full, rest, (All-mem _ xs after m, below))
  ]

  -- What the chart gets.
  pub record IsChart (q : CandlesQuery) (table chart : List (CandleRow W)) : Type 0 where
    pub ascending : IsAscending chart
    pub asked : All (λ r. (is_asked q r ≡ true) × Memᴰ r table) chart
    pub few : length chart ≤ q.limit
    pub newest :
        (r : CandleRow W)
        → Memᴰ r table
        → is_asked q r ≡ true
        → HasTime r.open_time chart
          ⊎ (All (λ s. r.open_time ≤ s.open_time) chart
              × (q.limit < tally (λ s. leb r.open_time s.open_time) (filter (is_asked q) table)))

  -- The candles of a query are rows of the table that are asked for, each of a later time than the one
  -- before, and not more than the limit; a row that is asked for has its time among them, or is not
  -- younger than any of them and more rows than the limit are asked for and not older than it.
  pub candles-IsChart :
      (q : CandlesQuery) (table : List (CandleRow W)) → IsChart q table (candles q table)
  unfolding candles
  candles-IsChart q table =
      let found = filter (is_asked q) table in
      let sorted = sort_by later found in
      let taken = take q.limit sorted in
      let falls = sort_by-IsFalling found in
      let seen = first_seen [] taken in
      let P : CandleRow W → Type 0 = λ r. (is_asked q r ≡ true) × Memᴰ r table in
      let sound : All P found =
        All-map₂ found (λ r a b. (a, b)) (filter-All (is_asked q) table)
          (All-filter (λ r. Memᴰ r table) (is_asked q) table (All-of_mem table (λ r m. m))) in
      let sound_taken : All P taken =
        All-of_mem taken
          (λ r m. All-mem P sorted (All-sort_by later P found sound) (mem-take q.limit sorted m)) in
      record {
        ascending = reverse-IsAscending seen (
            first_seen-IsDescending [] taken tt (All-of_mem taken (λ r m. tt))
              (take-IsFalling q.limit sorted falls));
        asked = All-reverse P seen (All-first_seen P [] taken tt sound_taken);
        few =
            omega (
              arith,
              length-reverse seen,
              length-first_seen [] taken,
              length-take_le q.limit sorted,
            );
        newest = λ r m a.
            elim (mem_split q.limit sorted falls
              (mem-sort_by_of later found (mem-filter (is_asked q) table m a))) [
                | inl k ↦
                    let (s, j, same) = first_seen-HasTime [] taken k in
                    inl (s, mem-reverse seen j, same)
                | inr (full, rest, below) ↦ inr (
                  All-reverse _ seen (All-first_seen _ [] taken tt below),
                  rw (← tally-sort_by (λ s. leb r.open_time s.open_time) later found) (
                      tally-take (λ s. leb r.open_time s.open_time) q.limit sorted full
                        (All-map' taken (λ s l. le→leb r.open_time s.open_time l) below) rest
                        (le→leb r.open_time r.open_time (omega arith))),
                )
              ];
      }
