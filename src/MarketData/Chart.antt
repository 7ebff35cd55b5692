-- ===== src/MarketData/Chart.antt =====
-- apps/api/src/modules/market-data/market-data.controller.ts: the order of the candles that the chart gets.
use mmxm.Prelude.{
  ℕ, zero, suc, ◌≤◌, ◌<◌, ◌≡◌, ◌≢◌, ◌==◌, ==_iff, true, false, List, [], ◌∷◌, ◌++◌, reverse, leb→le,
  any, take, sort_by, insert_by, All, Bool-cases, inl, inr, arith,
}
use mathlib.Core.List.{reverse-cons}
use mmxm.Prelude.Loops.{All-append, All-map', All-map₂, All-mem, All-of_mem, mem-take}
use mmxm.Candles.Sorted.{All-insert_by}
use mmxm.Ingest.{CandleRow}
use mmxm.MarketData.{later, first_seen}

module _ {W : Type 0} where
  -- Every row opens after those before it.
  abbrev pub IsAscending : List (CandleRow W) → Type 0
  IsAscending [] = Unit
  IsAscending (r ∷ rs) = All (λ x. r.open_time < x.open_time) rs × IsAscending rs

  abbrev pub IsDescending : List (CandleRow W) → Type 0
  IsDescending [] = Unit
  IsDescending (r ∷ rs) = All (λ x. x.open_time < r.open_time) rs × IsDescending rs

  -- No row opens after one before it.
  abbrev pub IsFalling : List (CandleRow W) → Type 0
  IsFalling [] = Unit
  IsFalling (r ∷ rs) = All (λ x. x.open_time ≤ r.open_time) rs × IsFalling rs

  insert_by-IsFalling :
      (y : CandleRow W) (xs : List (CandleRow W)) → IsFalling xs → IsFalling (insert_by later y xs)
  insert_by-IsFalling y [] h = (tt, tt)
  insert_by-IsFalling y (x ∷ xs) (after, h) = elim (Bool-cases (later y x)) [
    | inl e ↦
        let first : x.open_time ≤ y.open_time = leb→le x.open_time y.open_time e in
        rw e ((first, All-map' xs (λ z l. omega arith) after), (after, h))
    | inr e ↦ rw e (
      All-insert_by later (λ z. z.open_time ≤ x.open_time) y xs (ground arith) after,
      insert_by-IsFalling y xs h,
    )
  ]

  pub sort_by-IsFalling : (xs : List (CandleRow W)) → IsFalling (sort_by later xs)
  sort_by-IsFalling [] = tt
  sort_by-IsFalling (x ∷ xs) = insert_by-IsFalling x (sort_by later xs) (sort_by-IsFalling xs)

  pub take-IsFalling : (n : ℕ) (xs : List (CandleRow W)) → IsFalling xs → IsFalling (take n xs)
  take-IsFalling zero xs h = tt
  take-IsFalling (suc n) [] h = tt
  take-IsFalling (suc n) (x ∷ xs) (after, h) =
      (All-of_mem (take n xs) (λ z m. All-mem _ xs after (mem-take n xs m)), take-IsFalling n xs h)

  append-IsDescending :
      (xs : List (CandleRow W)) (y : CandleRow W)
      → IsDescending xs
      → All (λ x. y.open_time < x.open_time) xs
      → IsDescending (xs ++ y ∷ [])
  append-IsDescending [] y h below = (tt, tt)
  append-IsDescending (x ∷ xs) y (after, h) (b, below) =
      (All-append _ xs (y ∷ []) after (b, tt), append-IsDescending xs y h below)

  append-IsAscending :
      (xs : List (CandleRow W)) (y : CandleRow W)
      → IsAscending xs
      → All (λ x. x.open_time < y.open_time) xs
      → IsAscending (xs ++ y ∷ [])
  append-IsAscending [] y h below = (tt, tt)
  append-IsAscending (x ∷ xs) y (after, h) (b, below) =
      (All-append _ xs (y ∷ []) after (b, tt), append-IsAscending xs y h below)

  pub All-reverse :
      (P : CandleRow W → Type 0) (xs : List (CandleRow W)) → All P xs → All P (reverse xs)
  All-reverse P [] h = tt
  All-reverse P (x ∷ xs) (h, hs) =
      rw (reverse-cons x xs) (All-append P (reverse xs) (x ∷ []) (All-reverse P xs hs) (h, tt))

  pub reverse-IsAscending : (xs : List (CandleRow W)) → IsDescending xs → IsAscending (reverse xs)
  reverse-IsAscending [] h = tt
  reverse-IsAscending (x ∷ xs) (after, h) =
      rw (reverse-cons x xs)
        (append-IsAscending (reverse xs) x (reverse-IsAscending xs h) (All-reverse _ xs after))

  -- A time that is not seen lies below all that are, where it is not above them.
  unseen :
      (r : CandleRow W) (seen : List (CandleRow W))
      → any (λ s. s.open_time == r.open_time) seen ≡ false
      → All (λ s. r.open_time ≤ s.open_time) seen
      → All (λ s. r.open_time < s.open_time) seen
  unseen r [] e h = tt
  unseen r (s ∷ seen) e (h, hs) = elim (Bool-cases (s.open_time == r.open_time)) [
    | inl k ↦ let bad : true ≡ false = rw k at e in cc
    | inr k ↦
        let apart : s.open_time ≢ r.open_time =
          λ same. let hit = (==_iff s.open_time r.open_time).1 same in cc in
        (omega arith, unseen r seen (rw k at e) hs)
  ]

  pub first_seen-IsDescending :
      (seen rows : List (CandleRow W))
      → IsDescending seen
      → All (λ r. All (λ s. r.open_time ≤ s.open_time) seen) rows
      → IsFalling rows
      → IsDescending (first_seen seen rows)
  unfolding first_seen
  first_seen-IsDescending seen [] h below falls = h
  first_seen-IsDescending seen (r ∷ rows) h (b, below) (after, falls) =
      elim (Bool-cases (any (λ s. s.open_time == r.open_time) seen)) [
        | inl e ↦ rw e (first_seen-IsDescending seen rows h below falls)
        | inr e ↦ rw e (
            first_seen-IsDescending (seen ++ r ∷ []) rows
              (append-IsDescending seen r h (unseen r seen e b))
              (All-map₂ rows (λ z h k. All-append _ seen (r ∷ []) h (k, tt)) below after) falls)
      ]
