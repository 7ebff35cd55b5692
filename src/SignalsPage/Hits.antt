-- ===== src/SignalsPage/Hits.antt =====
-- apps/web/src/app/signals: the targets that the page of a signal shows as reached, against the number
-- that the list shows.
use mmxm.Prelude.{
  ℕ, ◌≤◌, ◌≡◌, ◌≢◌, refl, sym, ◌∙◌, ap, Bool, true, ◌||◌, Option, some, List, leb, any, arith,
  Bool-cases, or_true, inl, inr,
}
use mmxm.Types.{SignalStatus, completed, stopped}
use mmxm.Track.Levels.{IsLeveled}
use mmxm.SignalApi.{same_status}
use mmxm.Worker.Rows.{SignalEvent, TableRow}
use mmxm.Worker.Chronicle.{Log, ends, goes, IsChronicle}
use mmxm.SignalsPage.{tp_hit_count, hit_level_of, is_level, completed_level, is_hit}
use mmxm.SignalsPage.Moves.{
  hits_here, count_at, or_false, or_assoc, or_assoc_right, stopped-cases, not_stopped,
  completed-cases, none_at_zero, Edge-counts, Log-stays, Edge-stopped, hits_here-completed,
  hits_here-else,
}

-- The hits of the entries of a log.
hits : ℕ → List SignalEvent → Bool
hits k es = any (λ e. hits_here k e.to_status) es

module _ (k : ℕ) (low : 1 ≤ k) (high : k ≤ 3) where
  level-completed :
      (e : SignalEvent)
      → IsLeveled e.to_status e.level
      → e.to_status ≡ completed
      → leb k (completed_level (some e)) ≡ true
  level-completed e leveled c = let (n, same, three) = leveled c in rw same (ground arith)

  Log-is_hit :
      {x y : Option SignalStatus} {es : List SignalEvent} → Log x es y → is_hit es k ≡ hits k es
  unfolding is_hit hits
  Log-is_hit ends = none_at_zero k low high
  Log-is_hit (goes {e} {es} from edge leveled l) =
      elim (Bool-cases (same_status e.to_status completed)) [
        | inl c ↦
            rw
              (
                c,
                level-completed e leveled (completed-cases e.to_status c),
                hits_here-completed k e.to_status (completed-cases e.to_status c),
              )
              (or_true _)
        | inr c ↦
            rw (c, hits_here-else k e.to_status c)
              (or_assoc_right (is_level k (hit_level_of e.to_status)) _ _
                ∙ ap (λ b. is_level k (hit_level_of e.to_status) || b) (Log-is_hit l))
      ]

  Log-counts :
      {x y : Option SignalStatus} {es : List SignalEvent}
      → Log x es y
      → y ≢ some stopped
      → hits k es || leb k (count_at x) ≡ leb k (count_at y)
  unfolding hits count_at
  Log-counts ends go_on = refl
  Log-counts (goes {e} {es} from edge leveled l) go_on =
      let lasts : e.to_status ≢ stopped = λ s. go_on (Log-stays l (ap some s)) in
      let here = Edge-counts k low high edge lasts in
      or_assoc (hits_here k e.to_status) (hits k es) _
      ∙ ap (λ v. hits k es || (hits_here k e.to_status || leb k (count_at v))) from
      ∙ ap (λ b. hits k es || b) here
      ∙ Log-counts l go_on

-- The log of a stopped signal has a hit of the first target.
Log-stopped :
    {x y : Option SignalStatus} {es : List SignalEvent}
    → Log x es y
    → y ≡ some stopped
    → x ≢ some stopped
    → hits 1 es || leb 1 (count_at x) ≡ true
unfolding hits count_at
Log-stopped ends at_end before = absurd (before at_end)
Log-stopped (goes {e} {es} from edge leveled l) at_end before =
    or_assoc (hits_here 1 e.to_status) (hits 1 es) _
    ∙ ap (λ v. hits 1 es || (hits_here 1 e.to_status || leb 1 (count_at v))) from
    ∙ elim (Bool-cases (same_status e.to_status stopped)) [
      | inl s ↦ rw (Edge-stopped edge (stopped-cases e.to_status s)) (simp or_true refl)
      | inr s ↦
          let lasts : e.to_status ≢ stopped = λ q. not_stopped e.to_status s q in
          ap (λ b. hits 1 es || b) (Edge-counts 1 (omega arith) (omega arith) edge lasts)
          ∙ Log-stopped l at_end (λ q. lasts cc)
    ]

module _ {W : Type 0} where
  -- In a row whose log tells its life, the page of the signal shows a target, of level 1 to 3, as hit just
  -- where the list counts it, unless the signal is stopped; then its page shows the first target
  -- as hit and the list counts none.
  pub is_hit-tp_hit_count :
      (t : TableRow W)
      → IsChronicle t
      → (t.row.status ≢ stopped
          → (k : ℕ) → 1 ≤ k
          → k ≤ 3
          → is_hit t.events k ≡ leb k (tp_hit_count t.row.status))
        × (t.row.status ≡ stopped → (is_hit t.events 1 ≡ true) × (tp_hit_count t.row.status ≡ 0))
  unfolding count_at
  is_hit-tp_hit_count t life = (
    (λ go_on k low high.
        Log-is_hit k low high life.log
        ∙ sym (or_false (hits k t.events))
        ∙ ap (λ b. hits k t.events || b) (sym (none_at_zero k low high))
        ∙ Log-counts k low high life.log (λ e. go_on cc)),
    λ e. (
      Log-is_hit 1 (omega arith) (omega arith) life.log
          ∙ sym (or_false (hits 1 t.events))
          ∙ Log-stopped life.log (ap some e) (λ q. cc),
      rw e refl,
    ),
  )
