-- ===== src/SignalsPage/Covers.antt =====
-- apps/web/src/app/signals/page.tsx with apps/api/src/modules/signal/signal.controller.ts: what the pages show
-- together.
use mmxm.Prelude.{
  ℕ, zero, suc, ◌+◌, ◌++◌, ◌-◌, ◌*◌, ◌/◌, ◌≤◌, ◌≡◌, refl, ◌∙◌, ap, Option, some, List, leb, length,
  filter, flat_map, count_from, arith, take, drop, Bool-cases, inl, inr,
}
use mmxm.Prelude.Slices.{length-sort_by, flat_map-take-drop}
use mmxm.Types.{SignalStatus}
use mmxm.Notify.{AiVerdict}
use mmxm.Worker.Rows.{TableRow}
use mmxm.SignalApi.{list, is_asked, asked_rows}
use mmxm.SignalsPage.{page_query, total_pages}

total_pages-bounds : (total : ℕ) → total ≤ total_pages (some total) * 20
unfolding total_pages
total_pages-bounds total = elim (Bool-cases (leb 1 ((total + 19) / 20))) [
  | inl e ↦ rw e (omega arith)
  | inr e ↦ rw e (ground arith)
]

flat_map_shift :
    {A : Type 0} (f g : ℕ → List A) (a n : ℕ)
    → ((k : ℕ) → f (suc k) ≡ g k)
    → flat_map f (count_from (suc a) n) ≡ flat_map g (count_from a n)
flat_map_shift f g a zero h = refl
flat_map_shift f g a (suc n) h = rw (h a) (ap (λ r. g a ++ r) (flat_map_shift f g (suc a) n h))

module _ {W : Type 0} where
  -- The pages from the first to the last that is offered, one after the other, show the signals of the
  -- asked status, newest first: each once, and none is left out. The verdict and the least confidence
  -- that the page asks for filter nothing, since the list does not read them.
  pub pages-cover :
      (status : Option SignalStatus) (verdict : Option AiVerdict) (min_conf : Option ℕ)
      (rows : List (TableRow W))
      → flat_map
          (λ page. (list (page_query status verdict min_conf page) rows).items)
          (count_from 1
            (total_pages (some (list (page_query status verdict min_conf 1) rows).total)))
        ≡ asked_rows status rows
  unfolding list
  pages-cover status verdict min_conf rows =
      let asked = asked_rows status rows in
      let total = length (filter (is_asked status) rows) in
      let pages = total_pages (some total) in
      let enough : length asked ≤ (0 + pages) * 20 =
        rw
          (length-sort_by (λ (a b : TableRow W). leb b.detected_at a.detected_at)
            (filter (is_asked status) rows))
          (omega (arith, total_pages-bounds total)) in
      flat_map_shift (λ page. take 20 (drop ((page - 1) * 20) asked))
        (λ k. take 20 (drop (k * 20) asked)) 0 pages
        (λ k. let same : suc k - 1 ≡ k = omega arith in rw same refl)
      ∙ flat_map-take-drop 20 0 pages asked enough
