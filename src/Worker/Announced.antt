-- ===== src/Worker/Announced.antt =====
-- apps/worker/src: what is published of the signals, against what is stored of them.
use mmxm.Prelude.{
  ℕ, suc, ◌+◌, ◌*◌, ◌≡◌, refl, ◌∙◌, ap, Option, none, some, List, [], ◌∷◌, ◌++◌, map, String,
  length, same_text, flat_map, Bool-cases, inl, inr, arith,
}
use mmxm.Prelude.Loops.{length-append}
use mmxm.Double.{Double}
use mmxm.Track.{Effect, moved, be_applied, Tick, is_some, tick_price}
use mmxm.Gate.{Candidate}
use mmxm.Notify.{Channels, AiVerdict}
use mmxm.Worker.Rows.{TableRow, Admitted, created_row, events_of, with_insight}
use mmxm.Worker.{
  World, Job, Published, signal_created, status_changed, break_even_applied, publication, analysis,
  storing, insight, tracking, run_analysis, store_admitted, store_insight, effects_on, track_one,
  track_pass, run_job, run_jobs,
}

module _ {W : Type 0} where
  abbrev pub creations : List (Published W) → ℕ
  creations [] = 0
  creations (signal_created id dir entry confidence ∷ ps) = suc (creations ps)
  creations (status_changed event id to price ∷ ps) = creations ps
  creations (break_even_applied id price ∷ ps) = creations ps

  abbrev pub transitions : List (Published W) → ℕ
  transitions [] = 0
  transitions (signal_created id dir entry confidence ∷ ps) = transitions ps
  transitions (status_changed event id to price ∷ ps) = suc (transitions ps)
  transitions (break_even_applied id price ∷ ps) = transitions ps

  abbrev pub logged : List (TableRow W) → ℕ
  logged [] = 0
  logged (t ∷ rows) = length t.events + logged rows

  -- One creation is published for each row, and one change for each entry of the logs after the two of
  -- the creation.
  pub record IsAnnounced (w : World W) : Type 0 where
    pub stored : length w.rows ≡ creations w.published
    pub moves : logged w.rows ≡ 2 * length w.rows + transitions w.published

  creations-append :
      (ps qs : List (Published W)) → creations (ps ++ qs) ≡ creations ps + creations qs
  creations-append [] qs = omega arith
  creations-append (signal_created id dir entry confidence ∷ ps) qs =
      omega (arith, creations-append ps qs)
  creations-append (status_changed event id to price ∷ ps) qs = creations-append ps qs
  creations-append (break_even_applied id price ∷ ps) qs = creations-append ps qs

  transitions-append :
      (ps qs : List (Published W)) → transitions (ps ++ qs) ≡ transitions ps + transitions qs
  transitions-append [] qs = omega arith
  transitions-append (signal_created id dir entry confidence ∷ ps) qs = transitions-append ps qs
  transitions-append (status_changed event id to price ∷ ps) qs =
      omega (arith, transitions-append ps qs)
  transitions-append (break_even_applied id price ∷ ps) qs = transitions-append ps qs

  logged-append : (xs ys : List (TableRow W)) → logged (xs ++ ys) ≡ logged xs + logged ys
  logged-append [] ys = omega arith
  logged-append (t ∷ xs) ys = omega (arith, logged-append xs ys)

  no_creations :
      (t : TableRow W) (price : W) (es : List (Effect W))
      → creations (map (publication t price) es) ≡ 0
  unfolding publication
  no_creations t price [] = refl
  no_creations t price (moved a b event level ∷ es) = no_creations t price es
  no_creations t price (be_applied entry ∷ es) = no_creations t price es

  length-events_of :
      (t : TableRow W) (price : W) (es : List (Effect W))
      → length (events_of es) ≡ transitions (map (publication t price) es)
  unfolding publication events_of
  length-events_of t price [] = refl
  length-events_of t price (moved a b event level ∷ es) = ap suc (length-events_of t price es)
  length-events_of t price (be_applied entry ∷ es) = length-events_of t price es

module _ {W : Type 0} ⦃d : Double W⦄ where
  published_of : W → ℕ → List (TableRow W) → List (Published W)
  published_of price now rows =
      flat_map (λ t. map (publication t price) (effects_on price now t)) rows

  pass_lem :
      (price : W) (now : ℕ) (rows : List (TableRow W))
      → (length (map (track_one price now) rows) ≡ length rows)
        × (creations (published_of price now rows) ≡ 0)
        × (logged (map (track_one price now) rows)
            ≡ logged rows + transitions (published_of price now rows))
  unfolding track_one published_of
  pass_lem price now [] = (refl, refl, refl)
  pass_lem price now (t ∷ rows) =
      let es = effects_on price now t in
      let (a, b, c) = pass_lem price now rows in
      let new = map (publication t price) es in
      (
        ap suc a,
        creations-append new (published_of price now rows)
            ∙ omega (arith, no_creations t price es, b),
        omega (
          arith,
          c,
          length-append t.events (events_of es),
          length-events_of t price es,
          transitions-append new (published_of price now rows),
        ),
      )

  store_admitted-IsAnnounced :
      (ch : Channels W) (id : String) (now : ℕ) (subscribers : List String)
      (o : Option (Admitted W)) (w : World W)
      → IsAnnounced w
      → IsAnnounced (store_admitted ch id now subscribers o w)
  unfolding store_admitted created_row
  store_admitted-IsAnnounced ch id now subscribers none w h = h
  store_admitted-IsAnnounced ch id now subscribers (some a) w h =
      let row = created_row id now a ∷ [] in
      let news =
        signal_created id a.candidate.direction a.candidate.preferred_entry
          a.candidate.confidence_score
        ∷ [] in
      record {
        stored =
            omega (arith, h.stored, length-append w.rows row, creations-append w.published news);
        moves = omega (
          arith,
          h.moves,
          length-append w.rows row,
          logged-append w.rows row,
          transitions-append w.published news,
        );
      }

  track_pass-IsAnnounced :
      (ch : Channels W) (o : Option (Tick W)) (now : ℕ) (w : World W)
      → IsAnnounced w
      → IsAnnounced (track_pass ch o now w)
  unfolding track_pass published_of
  track_pass-IsAnnounced ch none now w h = h
  track_pass-IsAnnounced ch (some tick) now w h =
      let news = published_of (tick_price tick) now w.rows in
      let (a, b, c) = pass_lem (tick_price tick) now w.rows in
      record {
        stored = omega (arith, h.stored, a, b, creations-append w.published news);
        moves = omega (arith, h.moves, a, c, transitions-append w.published news);
      }

  with_insight-counts :
      (id : String) (v : AiVerdict) (rows : List (TableRow W))
      → (length (map (with_insight id v) rows) ≡ length rows)
        × (logged (map (with_insight id v) rows) ≡ logged rows)
  unfolding with_insight
  with_insight-counts id v [] = (refl, refl)
  with_insight-counts id v (t ∷ rows) =
      let (a, b) = with_insight-counts id v rows in
      elim (Bool-cases (same_text t.row.id id)) [
        | inl e ↦ rw e (ap suc a, ap (λ n. length t.events + n) b)
        | inr e ↦ rw e (ap suc a, ap (λ n. length t.events + n) b)
      ]

  store_insight-IsAnnounced :
      (ch : Channels W) (id : String) (c : Candidate W) (o : Option AiVerdict) (w : World W)
      → IsAnnounced w
      → IsAnnounced (store_insight ch id c o w)
  unfolding store_insight
  store_insight-IsAnnounced ch id c none w h = h
  store_insight-IsAnnounced ch id c (some v) w h =
      let (a, b) = with_insight-counts id v w.rows in
      record { stored = a ∙ h.stored; moves = b ∙ rw a h.moves }

  run_job-IsAnnounced :
      (ch : Channels W) (j : Job W) (w : World W) → IsAnnounced w → IsAnnounced (run_job ch j w)
  unfolding run_job run_analysis
  run_job-IsAnnounced ch (analysis m) w h = elim (Bool-cases (is_some w.pending)) [
    | inl e ↦ rw e h
    | inr e ↦ rw e (record { stored = h.stored; moves = h.moves })
  ]
  run_job-IsAnnounced ch (storing id now subscribers) w h =
      store_admitted-IsAnnounced ch id now subscribers w.pending w h
  run_job-IsAnnounced ch (insight id c o) w h = store_insight-IsAnnounced ch id c o w h
  run_job-IsAnnounced ch (tracking tick now) w h = track_pass-IsAnnounced ch tick now w h

  -- Whatever the order of the worker's jobs, as many creations are published as signals are stored, and as
  -- many changes of status as the logs of the signals have entries after the two of each creation, if that
  -- was so before the first job.
  pub run_jobs-IsAnnounced :
      (ch : Channels W) (jobs : List (Job W)) (w : World W)
      → IsAnnounced w
      → IsAnnounced (run_jobs ch jobs w)
  unfolding run_jobs
  run_jobs-IsAnnounced ch [] w h = h
  run_jobs-IsAnnounced ch (j ∷ js) w h =
      run_jobs-IsAnnounced ch js (run_job ch j w) (run_job-IsAnnounced ch j w h)
