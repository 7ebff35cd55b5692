-- ===== src/Worker/Single.antt =====
-- apps/worker/src: how many signals are open at a time, whatever the order of the worker's jobs.
use mmxm.Prelude.{
  ℕ, ◌≤◌, ◌≡◌, refl, sym, Bool, true, false, Option, none, some, List, [], ◌∷◌, map, String, leb,
  filter, same_text, Bool-cases, inl, inr, arith,
}
use mmxm.Prelude.Loops.{map-append}
use mmxm.Prelude.Filters.{length-filter-map, nil_of_length}
use mmxm.Double.{Double}
use mmxm.Types.{
  Direction, SignalStatus, watching, preliminary, confirmed, active, invalidated, expired, tp1_hit,
  tp2_hit, completed, stopped, failed,
}
use mmxm.Track.{Tick, is_some, tick_price, track_row}
use mmxm.Track.Legal.{rank, track_row-rank, apply_all-direction, track_row_effects}
use mmxm.Backtest.{same_direction}
use mmxm.Gate.{
  Candidate, Verdict, duplicate, throttled, same_direction_open, opposite_open, no_version, created,
  is_open, open_in, stored_of,
}
use mmxm.Gate.OneOpen.{IsSingle, admit_created, append-IsSingle}
use mmxm.Notify.{Channels, AiVerdict}
use mmxm.Worker.Rows.{TableRow, Admitted, stored_view, created_row, with_insight}
use mmxm.Worker.{
  World, JobInput, Job, analysis, storing, insight, tracking, admitted_by, through_gate,
  run_analysis, store_admitted, store_insight, effects_on, track_one, track_pass, run_job, run_jobs,
}

is_open-rank : (s : SignalStatus) → is_open s ≡ leb (rank s) 1
is_open-rank watching = refl
is_open-rank preliminary = refl
is_open-rank confirmed = refl
is_open-rank active = refl
is_open-rank invalidated = refl
is_open-rank expired = refl
is_open-rank tp1_hit = refl
is_open-rank tp2_hit = refl
is_open-rank completed = refl
is_open-rank stopped = refl
is_open-rank failed = refl

admitted_by_created :
    {W : Type 0} (v : Verdict) (c : Candidate W) (llm : Bool) (version : Option String)
    (a : Admitted W)
    → admitted_by v c llm version ≡ some a
    → (v ≡ created) × (c ≡ a.candidate)
admitted_by_created created c llm (some id) a e = (refl, cc)
admitted_by_created created c llm none a e = cc
admitted_by_created duplicate c llm version a e = cc
admitted_by_created throttled c llm version a e = cc
admitted_by_created same_direction_open c llm version a e = cc
admitted_by_created opposite_open c llm version a e = cc
admitted_by_created no_version c llm version a e = cc

module _ {W : Type 0} where
  -- What the gate sees of a changed row: the direction is kept, and the rank has not fallen.
  open_in-rank :
      (dir : Direction) (a b : TableRow W)
      → b.row.direction ≡ a.row.direction
      → rank a.row.status ≤ rank b.row.status
      → open_in dir (stored_view b) ≡ true
      → open_in dir (stored_view a) ≡ true
  open_in-rank dir a b same le h =
      rw is_open-rank (elim (Bool-cases (same_direction dir a.row.direction)) [
        | inr e ↦ let bad : false ≡ true = rw (same, e) at h in cc
        | inl e ↦ let open_after = rw (same, e, is_open-rank) at h in rw e (ground arith)
      ])

  -- At most one signal is open in each direction, and none is in the direction of a pending one.
  pub record IsGuarded (w : World W) : Type 0 where
    pub single : IsSingle (map stored_view w.rows)
    pub clear :
        (a : Admitted W)
        → w.pending ≡ some a
        → filter (open_in a.candidate.direction) (map stored_view w.rows) ≡ []

  -- A change of the rows that opens none.
  change-IsGuarded :
      (f : TableRow W → TableRow W) (w v : World W)
      → ((dir : Direction) (t : TableRow W)
          → open_in dir (stored_view (f t)) ≡ true
          → open_in dir (stored_view t) ≡ true)
      → v.rows ≡ map f w.rows
      → v.pending ≡ w.pending
      → IsGuarded w
      → IsGuarded v
  change-IsGuarded f w v back changed kept g = record {
    single = λ dir. rw changed (
        omega
          (arith, length-filter-map (open_in dir) stored_view f (back dir) w.rows, g.single dir));
    clear = λ a e. rw changed (
        nil_of_length _ _ (g.clear a (rw kept at e)) (
          length-filter-map (open_in a.candidate.direction) stored_view f
            (back a.candidate.direction) w.rows));
  }

  with_insight_back :
      (id : String) (verdict : AiVerdict) (dir : Direction) (t : TableRow W)
      → open_in dir (stored_view (with_insight id verdict t)) ≡ true
      → open_in dir (stored_view t) ≡ true
  unfolding with_insight
  with_insight_back id verdict dir t h = elim (Bool-cases (same_text t.row.id id)) [
    | inl e ↦ rw e at h
    | inr e ↦ rw e at h
  ]

module _ {W : Type 0} ⦃d : Double W⦄ where
  track_one_row :
      (price : W) (now : ℕ) (t : TableRow W)
      → (track_one price now t).row ≡ track_row price now t.row
  unfolding track_one effects_on
  track_one_row price now t = sym (track_row_effects price now t.row)

  track_one_back :
      (price : W) (now : ℕ) (dir : Direction) (t : TableRow W)
      → open_in dir (stored_view (track_one price now t)) ≡ true
      → open_in dir (stored_view t) ≡ true
  unfolding track_one
  track_one_back price now dir t h =
      open_in-rank dir t (track_one price now t)
        (apply_all-direction (effects_on price now t) t.row)
        (rw (track_one_row price now t) (track_row-rank price now t.row)) h

  through_gate_clear :
      (now : ℕ) (version : Option String) (o : Option (Candidate W × Bool))
      (rows : List (TableRow W)) (a : Admitted W)
      → through_gate now version o rows ≡ some a
      → filter (open_in a.candidate.direction) (map stored_view rows) ≡ []
  through_gate_clear now version none rows a e = cc
  through_gate_clear now version (some (c, llm)) rows a e =
      let (let_through, same) = admitted_by_created _ c llm version a e in
      rw (← same) ((admit_created now (is_some version) c (map stored_view rows)).0 let_through).0

  run_analysis-IsGuarded :
      (m : JobInput W) (w : World W) → IsGuarded w → IsGuarded (run_analysis m w)
  unfolding run_analysis
  run_analysis-IsGuarded m w g = record {
    single = g.single;
    clear = λ a e. through_gate_clear _ _ _ w.rows a e;
  }

  created_row_stored :
      (id : String) (now : ℕ) (a : Admitted W)
      → stored_of now a.candidate ≡ stored_view (created_row id now a)
  unfolding created_row stored_of
  created_row_stored id now a = refl

  store_admitted-IsGuarded :
      (ch : Channels W) (id : String) (now : ℕ) (subscribers : List String)
      (o : Option (Admitted W)) (w : World W)
      → w.pending ≡ o
      → IsGuarded w
      → IsGuarded (store_admitted ch id now subscribers o w)
  unfolding store_admitted
  store_admitted-IsGuarded ch id now subscribers none w e g = g
  store_admitted-IsGuarded ch id now subscribers (some a) w e g = record {
    single = rw (map-append stored_view w.rows (created_row id now a ∷ [])) (
        rw (created_row_stored id now a) at
          (append-IsSingle now a.candidate (map stored_view w.rows) g.single (g.clear a e)));
    clear = λ b f. cc;
  }

  store_insight-IsGuarded :
      (ch : Channels W) (id : String) (c : Candidate W) (o : Option AiVerdict) (w : World W)
      → IsGuarded w
      → IsGuarded (store_insight ch id c o w)
  unfolding store_insight
  store_insight-IsGuarded ch id c none w g = g
  store_insight-IsGuarded ch id c (some v) w g =
      change-IsGuarded (with_insight id v) w _ (with_insight_back id v) refl refl g

  track_pass-IsGuarded :
      (ch : Channels W) (o : Option (Tick W)) (now : ℕ) (w : World W)
      → IsGuarded w
      → IsGuarded (track_pass ch o now w)
  unfolding track_pass
  track_pass-IsGuarded ch none now w g = g
  track_pass-IsGuarded ch (some tick) now w g =
      change-IsGuarded (track_one (tick_price tick) now) w _ (track_one_back (tick_price tick) now)
        refl refl g

  run_job-IsGuarded :
      (ch : Channels W) (j : Job W) (w : World W) → IsGuarded w → IsGuarded (run_job ch j w)
  unfolding run_job
  run_job-IsGuarded ch (analysis m) w g = elim (Bool-cases (is_some w.pending)) [
    | inl e ↦ rw e g
    | inr e ↦ rw e (run_analysis-IsGuarded m w g)
  ]
  run_job-IsGuarded ch (storing id now subscribers) w g =
      store_admitted-IsGuarded ch id now subscribers w.pending w refl g
  run_job-IsGuarded ch (insight id c o) w g = store_insight-IsGuarded ch id c o w g
  run_job-IsGuarded ch (tracking tick now) w g = track_pass-IsGuarded ch tick now w g

  -- Whatever the order of the analyses, the storing of what they let through, the verdicts that arrive and
  -- the passes of the tracker: at most one signal is open in each direction, and none is where one is let
  -- through and not stored yet, if that was so before the first job.
  pub run_jobs-IsGuarded :
      (ch : Channels W) (jobs : List (Job W)) (w : World W)
      → IsGuarded w
      → IsGuarded (run_jobs ch jobs w)
  unfolding run_jobs
  run_jobs-IsGuarded ch [] w g = g
  run_jobs-IsGuarded ch (j ∷ js) w g =
      run_jobs-IsGuarded ch js (run_job ch j w) (run_job-IsGuarded ch j w g)
