-- ===== src/SimPage/Whole.antt =====
-- apps/web/src/app/simulasi/page.tsx with apps/api/src/modules/signal/signal.controller.ts: that the pages make
-- up the whole list.
use mmxm.Prelude.{
  ℕ, zero, suc, ◌≤◌, ◌≡◌, refl, sym, ◌∙◌, ap, true, false, Option, none, some, List, [], ◌∷◌, ◌++◌,
  ltb, length, take, drop, filter, arith,
}
use mathlib.Core.List.{append_assoc}
use mmxm.Prelude.Loops.{length-append, filter_of_All}
use mmxm.Prelude.Slices.{
  length-sort_by, drop_done, append-take-drop, length-drop_le, append_nil, All-true,
}
use mmxm.Double.{Double, of_ℕ}
use mmxm.Types.{SignalStatus}
use mmxm.Notify.{AiVerdict}
use mmxm.Worker.Rows.{TableRow}
use mmxm.SignalApi.{Page, list, is_asked, newest_first, asked_rows}
use mmxm.SimPage.Fetch.{
  all_closed, all_statuses, one_status, query_at, min_conf_of, fetch_rest, fetch_all, is_shown,
  fetch_signals,
}

module _ {A : Type 0} where
  -- With as much fuel as rows are missing, the loop gets the rest.
  fetch_rest-whole :
      (fuel : ℕ) (server : ℕ → Page A) (total : ℕ) (done rest : List A)
      → ((k : ℕ) → (server k).items ≡ take 200 (drop k (done ++ rest)))
      → total ≡ length (done ++ rest)
      → length rest ≤ fuel
      → fetch_rest fuel server total done ≡ done ++ rest
  unfolding fetch_rest
  fetch_rest-whole zero server total done [] h e le = sym (append_nil done)
  fetch_rest-whole zero server total done (x ∷ rest) h e le = absurd (omega arith)
  fetch_rest-whole (suc fuel) server total done [] h e le =
      let full : ltb (length done) total ≡ false =
        let same = length-append done [] in ground arith in
      rw full (sym (append_nil done))
  fetch_rest-whole (suc fuel) server total done (x ∷ rest) h e le =
      let more : ltb (length done) total ≡ true =
        let same = length-append done (x ∷ rest) in ground arith in
      let next : (server (length done)).items ≡ x ∷ take 199 rest =
        h (length done) ∙ ap (take 200) (drop_done done (x ∷ rest)) in
      let new : List A = x ∷ take 199 rest in
      let parts : (done ++ new) ++ drop 199 rest ≡ done ++ x ∷ rest =
        append_assoc done new (drop 199 rest)
        ∙ ap (λ r. done ++ x ∷ r) (append-take-drop 199 rest) in
      rw (more, next)
        (fetch_rest-whole fuel server total (done ++ new) (drop 199 rest) (λ k. rw parts (h k))
            (rw parts e) (omega (arith, length-drop_le 199 rest))
          ∙ parts)

  -- If each page holds up to 200 rows from its offset on, and the total is the number of rows, the pages
  -- make up the whole.
  fetch_all-whole :
      (server : ℕ → Page A) (rows : List A)
      → ((k : ℕ) → (server k).items ≡ take 200 (drop k rows))
      → (server 0).total ≡ length rows
      → fetch_all server ≡ rows
  unfolding fetch_all
  fetch_all-whole server rows h e =
      let parts : take 200 rows ++ drop 200 rows ≡ rows = append-take-drop 200 rows in
      rw (h 0) (
        fetch_rest-whole (server 0).total server (server 0).total (take 200 rows) (drop 200 rows)
          (λ k. rw parts (h k)) (rw parts e) (omega (arith, e, length-drop_le 200 rows))
        ∙ parts)

module _ {W : Type 0} where
  list-whole :
      (status : Option SignalStatus) (verdict : Option AiVerdict) (min_conf : Option ℕ)
      (rows : List (TableRow W))
      → fetch_all (λ offset. list (query_at status verdict min_conf offset) rows)
        ≡ asked_rows status rows
  unfolding list
  list-whole status verdict min_conf rows =
      fetch_all-whole (λ offset. list (query_at status verdict min_conf offset) rows)
        (asked_rows status rows) (λ k. refl)
        (sym (length-sort_by _ (filter (is_asked status) rows)))

module _ {W : Type 0} ⦃d : Double W⦄ where
  -- The loop over the pages ends with the whole: for `CLOSED` the closed signals of the table that have
  -- the chosen verdict and confidence, for all statuses the whole table, and for one status the signals of
  -- that status, whatever their verdict and confidence; always newest first.
  pub fetch_signals-whole :
      (verdict : Option AiVerdict) (min_conf : ℕ) (rows : List (TableRow W))
      → (fetch_signals all_closed verdict min_conf rows
          ≡ filter (is_shown verdict (of_ℕ min_conf)) (newest_first rows))
        × (fetch_signals all_statuses verdict min_conf rows ≡ newest_first rows)
        × ((s : SignalStatus)
            → fetch_signals (one_status s) verdict min_conf rows
              ≡ newest_first (filter (is_asked (some s)) rows))
  unfolding fetch_signals
  fetch_signals-whole verdict min_conf rows =
      let whole : asked_rows none rows ≡ newest_first rows =
        ap newest_first (filter_of_All (is_asked none) rows (All-true rows)) in
      (
        ap (filter (is_shown verdict (of_ℕ min_conf))) (list-whole none none none rows ∙ whole),
        list-whole none verdict (min_conf_of min_conf) rows ∙ whole,
        λ s. list-whole (some s) verdict (min_conf_of min_conf) rows,
      )
