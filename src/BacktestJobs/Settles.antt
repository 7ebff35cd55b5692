-- ===== src/BacktestJobs/Settles.antt =====
-- apps/api/src/modules/backtest/backtest.controller.ts with apps/worker/src/backtest-runner.ts: that a backtest
-- that was accepted ends.
use mmxm.Prelude.{
  ◌≡◌, refl, ap, ◌∙◌, ◌⊎◌, inl, inr, Option, none, some, List, [], ◌∷◌, Memᴰ, map, String,
  same_text, same_text_iff, filter, All, Bool-cases,
}
use mmxm.Prelude.Loops.{All-append, All-map, All-map', mem-append_left, mem-append_right}
use mmxm.Double.{Double}
use mmxm.Backtest.{Backtest, completed, failed}
use mmxm.Worker.Versions.{StrategyVersion, newest_version}
use mmxm.BacktestJobs.{
  is_completed, is_failed, BacktestRow, Backtests, CreateBody, Replay, is_named, create_for, create,
  with_result, replay, drain, work,
}

module _ {W : Type 0} where
  abbrev pub HasEnded : BacktestRow W → Type 0
  HasEnded r = (r.status ≡ is_completed) ⊎ (r.status ≡ is_failed)

  -- A row has ended, or its job is in the queue.
  abbrev pub IsCarried : List String → BacktestRow W → Type 0
  IsCarried queue r = HasEnded r ⊎ Memᴰ r.id queue

  create_for-IsCarried :
      (o : Option (StrategyVersion W)) (id : String) (b : CreateBody) (s : Backtests W)
      → All (IsCarried s.queue) s.rows
      → All (IsCarried (create_for o id b s).0.queue) (create_for o id b s).0.rows
  create_for-IsCarried none id b s h = h
  create_for-IsCarried (some v) id b s h =
      All-append _ s.rows _
        (All-map' s.rows
          (λ r c. elim c [ inl e ↦ inl e | inr m ↦ inr (mem-append_left s.queue (id ∷ []) m) ]) h)
        (inr (mem-append_right s.queue (id ∷ []) (Memᴰ.head refl)), tt)

  -- Whether a request is accepted or refused, each backtest has ended or has its job in the queue.
  pub create-IsCarried :
      (versions : List (StrategyVersion W)) (id : String) (b : CreateBody) (s : Backtests W)
      → All (IsCarried s.queue) s.rows
      → All (IsCarried (create versions id b s).0.queue) (create versions id b s).0.rows
  unfolding create
  create-IsCarried versions id b s h = elim (Bool-cases (is_named b)) [
    | inl e ↦
        rw e (create_for-IsCarried (newest_version (filter (λ v. v.is_active) versions)) id b s h)
    | inr e ↦ rw e h
  ]

  with_result-HasEnded : (b : Backtest W) (r : BacktestRow W) → HasEnded (with_result b r)
  unfolding with_result
  with_result-HasEnded (completed summary trades) r = inl refl
  with_result-HasEnded failed r = inr refl

  with_result-id : (b : Backtest W) (r : BacktestRow W) → (with_result b r).id ≡ r.id
  unfolding with_result
  with_result-id (completed summary trades) r = refl
  with_result-id failed r = refl

module _ {W : Type 0} ⦃d : Double W⦄ (p : Replay W) where
  -- The job that is taken from the queue ends its row, and leaves the others as they are.
  replay-IsCarried :
      (id : String) (ids : List String) (r : BacktestRow W)
      → IsCarried (id ∷ ids) r
      → IsCarried ids (replay p id r)
  unfolding replay
  replay-IsCarried id ids r c = elim (Bool-cases (same_text r.id id)) [
    | inl e ↦ rw e (inl (with_result-HasEnded _ _))
    | inr e ↦ rw e (elim c [
      | inl ended ↦ inl ended
      | inr (Memᴰ.head same) ↦ let hit = (same_text_iff r.id id).1 same in cc
      | inr (Memᴰ.tail m) ↦ inr m
    ])
  ]

  drain-HasEnded :
      (ids : List String) (rows : List (BacktestRow W))
      → All (IsCarried ids) rows
      → All HasEnded (drain p ids rows)
  unfolding drain
  drain-HasEnded [] rows h = All-map' rows (λ r c. elim c [ inl e ↦ e | inr m ↦ elim m [ ] ]) h
  drain-HasEnded (id ∷ ids) rows h =
      drain-HasEnded ids (map (replay p id) rows)
        (All-map (IsCarried ids) (replay p id) rows (All-map' rows (replay-IsCarried id ids) h))

  replay-id : (id : String) (r : BacktestRow W) → (replay p id r).id ≡ r.id
  unfolding replay
  replay-id id r = elim (Bool-cases (same_text r.id id)) [
    | inl e ↦ rw e (with_result-id _ _)
    | inr e ↦ rw e refl
  ]

  map-replay-id :
      (id : String) (rows : List (BacktestRow W))
      → map (λ r. r.id) (map (replay p id) rows) ≡ map (λ r. r.id) rows
  map-replay-id id [] = refl
  map-replay-id id (r ∷ rows) = rw (replay-id id r) (ap (◌∷◌ r.id) (map-replay-id id rows))

  drain-ids :
      (ids : List String) (rows : List (BacktestRow W))
      → map (λ r. r.id) (drain p ids rows) ≡ map (λ r. r.id) rows
  unfolding drain
  drain-ids [] rows = refl
  drain-ids (id ∷ ids) rows = drain-ids ids (map (replay p id) rows) ∙ map-replay-id id rows

  -- Requests for backtests, each with its id, then the jobs that they have put into the queue.
  abbrev pub create_all : List (String × CreateBody) → Backtests W → Backtests W
  create_all [] s = s
  create_all ((id, b) ∷ bs) s = create_all bs (create p.versions id b s).0

  create_all-IsCarried :
      (bs : List (String × CreateBody)) (s : Backtests W)
      → All (IsCarried s.queue) s.rows
      → All (IsCarried (create_all bs s).queue) (create_all bs s).rows
  create_all-IsCarried [] s h = h
  create_all-IsCarried ((id, b) ∷ bs) s h =
      create_all-IsCarried bs (create p.versions id b s).0 (create-IsCarried p.versions id b s h)

  -- After any requests for backtests, once the worker has taken the jobs of the queue, the table has
  -- the same backtests and each is COMPLETED or FAILED, if before the requests each had ended or had
  -- its job in the queue.
  pub work-HasEnded :
      (bs : List (String × CreateBody)) (s : Backtests W)
      → All (IsCarried s.queue) s.rows
      → All HasEnded (work p (create_all bs s)).rows
        × (map (λ r. r.id) (work p (create_all bs s)).rows ≡ map (λ r. r.id) (create_all bs s).rows)
  unfolding work
  work-HasEnded bs s h = (
    drain-HasEnded (create_all bs s).queue (create_all bs s).rows (create_all-IsCarried bs s h),
    drain-ids (create_all bs s).queue (create_all bs s).rows,
  )
