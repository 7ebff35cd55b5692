-- ===== src/Worker/Chronicle.antt =====
-- apps/worker/src: the log of a signal's status, which analyzer.ts begins and track.ts goes on with.
use mmxm.Prelude.{
  ℕ, ◌≡◌, refl, Option, none, some, List, [], ◌∷◌, ◌++◌, map, String, same_text, All, Bool-cases,
  inl, inr,
}
use mmxm.Prelude.Loops.{All-append, All-map, All-map'}
use mmxm.Double.{Double}
use mmxm.Types.{SignalStatus, preliminary, confirmed}
use mmxm.Track.{Effect, is_tracked, is_some, tick_price, apply_all}
use mmxm.Track.Legal.{Legal, Runs, done, turn, kept, track_row-Runs, track_row_effects}
use mmxm.Track.Levels.{IsLeveled, IsLeveledEffect, track-IsLeveled}
use mmxm.Notify.{Channels, AiVerdict}
use mmxm.Worker.Rows.{SignalEvent, TableRow, Admitted, created_row, events_of, with_insight}
use mmxm.Worker.{
  World, Job, analysis, storing, insight, tracking, run_analysis, store_admitted, store_insight,
  effects_on, track_one, track_pass, run_job, run_jobs,
}

-- The edges of a log: the first two are of the creation, the others of the tracker.
pub data Edge : Option SignalStatus → SignalStatus → Type 0 where
  born : Edge none preliminary
  confirms : Edge (some preliminary) confirmed
  lives : {a b : SignalStatus} → Legal a b → Edge (some a) b

-- A log from one status to another without a gap, whose entries of COMPLETED carry a level of 3 or more.
pub data Log : Option SignalStatus → List SignalEvent → Option SignalStatus → Type 0 where
  ends : {a : Option SignalStatus} → Log a [] a
  goes :
      {a c : Option SignalStatus} {e : SignalEvent} {es : List SignalEvent}
      → a ≡ e.from_status
      → Edge e.from_status e.to_status
      → IsLeveled e.to_status e.level
      → Log (some e.to_status) es c
      → Log a (e ∷ es) c

-- The first two entries are the creation and the confirmation.
abbrev pub Begins : List SignalEvent → Type 0
Begins (e ∷ f ∷ es) = (e.to_status ≡ preliminary) × (f.to_status ≡ confirmed)
Begins _ = ⊥

Begins-append : (es fs : List SignalEvent) → Begins es → Begins (es ++ fs)
Begins-append (e ∷ f ∷ es) fs h = h
Begins-append _ fs h = absurd h

Log-append :
    {a b c : Option SignalStatus} {es fs : List SignalEvent}
    → Log a es b
    → Log b fs c
    → Log a (es ++ fs) c
Log-append ends k = k
Log-append (goes e edge leveled l) k = goes e edge leveled (Log-append l k)

module _ {W : Type 0} where
  -- The log of a row tells its life from its creation and confirmation to its present status.
  pub record IsChronicle (t : TableRow W) : Type 0 where
    pub begins : Begins t.events
    pub log : Log none t.events (some t.row.status)

  Runs-Log :
      {a c : SignalStatus} {es : List (Effect W)}
      → Runs a es c
      → All IsLeveledEffect es
      → Log (some a) (events_of es) (some c)
  unfolding events_of
  Runs-Log done h = ends
  Runs-Log (turn l r) (h, hs) = goes refl (lives l) h (Runs-Log r hs)
  Runs-Log (kept r) (h, hs) = Runs-Log r hs

  created_row-IsChronicle :
      (id : String) (now : ℕ) (a : Admitted W) → IsChronicle (created_row id now a)
  unfolding created_row
  created_row-IsChronicle id now a = record {
    begins = (refl, refl);
    log = goes refl born (λ e. cc) (goes refl confirms (λ e. cc) ends);
  }

  with_insight-IsChronicle :
      (id : String) (v : AiVerdict) (t : TableRow W)
      → IsChronicle t
      → IsChronicle (with_insight id v t)
  unfolding with_insight
  with_insight-IsChronicle id v t h = elim (Bool-cases (same_text t.row.id id)) [
    | inl e ↦ rw e (record { begins = h.begins; log = h.log })
    | inr e ↦ rw e h
  ]

module _ {W : Type 0} ⦃d : Double W⦄ where
  effects_on-Log :
      (price : W) (now : ℕ) (t : TableRow W)
      → Log
          (some t.row.status)
          (events_of (effects_on price now t))
          (some (apply_all (effects_on price now t) t.row).status)
  unfolding effects_on
  effects_on-Log price now t =
      let (runs, same) = track_row-Runs price now t.row in
      rw (← track_row_effects price now t.row) (elim (Bool-cases (is_tracked t.row.status)) [
        | inl e ↦ rw e (Runs-Log (runs e) (track-IsLeveled price now t.row))
        | inr e ↦ rw (e, same e) (Runs-Log done tt)
      ])

  track_one-IsChronicle :
      (price : W) (now : ℕ) (t : TableRow W) → IsChronicle t → IsChronicle (track_one price now t)
  unfolding track_one
  track_one-IsChronicle price now t h = record {
    begins = Begins-append t.events (events_of (effects_on price now t)) h.begins;
    log = Log-append h.log (effects_on-Log price now t);
  }

  map-IsChronicle :
      (f : TableRow W → TableRow W) (rows : List (TableRow W))
      → ((t : TableRow W) → IsChronicle t → IsChronicle (f t))
      → All IsChronicle rows
      → All IsChronicle (map f rows)
  map-IsChronicle f rows keep h = All-map IsChronicle f rows (All-map' rows keep h)

  store_admitted-IsChronicle :
      (ch : Channels W) (id : String) (now : ℕ) (subscribers : List String)
      (o : Option (Admitted W)) (w : World W)
      → All IsChronicle w.rows
      → All IsChronicle (store_admitted ch id now subscribers o w).rows
  unfolding store_admitted
  store_admitted-IsChronicle ch id now subscribers none w h = h
  store_admitted-IsChronicle ch id now subscribers (some a) w h =
      All-append IsChronicle w.rows (created_row id now a ∷ []) h
        (created_row-IsChronicle id now a, tt)

  run_job-IsChronicle :
      (ch : Channels W) (j : Job W) (w : World W)
      → All IsChronicle w.rows
      → All IsChronicle (run_job ch j w).rows
  unfolding run_job run_analysis store_insight track_pass
  run_job-IsChronicle ch (analysis m) w h = elim (Bool-cases (is_some w.pending)) [
    | inl e ↦ rw e h
    | inr e ↦ rw e h
  ]
  run_job-IsChronicle ch (storing id now subscribers) w h =
      store_admitted-IsChronicle ch id now subscribers w.pending w h
  run_job-IsChronicle ch (insight id c none) w h = h
  run_job-IsChronicle ch (insight id c (some v)) w h =
      map-IsChronicle (with_insight id v) w.rows (with_insight-IsChronicle id v) h
  run_job-IsChronicle ch (tracking none now) w h = h
  run_job-IsChronicle ch (tracking (some tick) now) w h =
      map-IsChronicle (track_one (tick_price tick) now) w.rows
        (track_one-IsChronicle (tick_price tick) now) h

  -- Whatever the order of the worker's jobs: the log of each signal begins with its creation as
  -- PRELIMINARY and its confirmation, goes on along the edges of `Legal` without a gap, and ends at the
  -- status that the row has, and its entries of COMPLETED carry a level of 3 or more, if that was so of
  -- the rows before the first job.
  pub run_jobs-IsChronicle :
      (ch : Channels W) (jobs : List (Job W)) (w : World W)
      → All IsChronicle w.rows
      → All IsChronicle (run_jobs ch jobs w).rows
  unfolding run_jobs
  run_jobs-IsChronicle ch [] w h = h
  run_jobs-IsChronicle ch (j ∷ js) w h =
      run_jobs-IsChronicle ch js (run_job ch j w) (run_job-IsChronicle ch j w h)
