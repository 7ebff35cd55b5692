-- ===== src/SimPage/Agrees.antt =====
-- apps/web/src/app/simulasi/page.tsx against apps/web/src/lib/sim.ts, which is a copy of its account.
use mmxm.Prelude.{
  ℕ, suc, Option, none, ◌≡◌, refl, leb, arith, ap, true, false, List, [], ◌∷◌, map, reverse, length,
  filter, All, Bool-cases, inl, inr,
}
use mmxm.Prelude.Loops.{All-append, All-map, All-map', All-filter, filter-All}
use mathlib.Core.List.{reverse-cons}
use mmxm.Double.{Double, of_ℕ}
use mmxm.Types.{
  SignalStatus, watching, preliminary, confirmed, active, invalidated, expired, tp1_hit, tp2_hit,
  completed, stopped, failed,
}
use mmxm.Sim.{
  SimSignal, Sized, Sim, is_closed, r_of, size_trade, ideal_lot, row_of, rows_from, final_from,
  compute_sim,
}
use mmxm.Sim.Equity.{sized_signal}
use mmxm.Notify.{AiVerdict}
use mmxm.Worker.Rows.{TableRow}
use mmxm.SimPage.Fetch.{all_closed, is_shown, query_at, fetch_all, fetch_signals}
use mmxm.SignalApi.{list}
use mmxm.SimPage.{
  Settings, PageSim, page_r, page_trade, page_lot, page_row, page_rows, page_final, simulate,
  is_in_range, in_range, sim_signal,
}

All-reverse : {A : Type 0} (P : A → Type 0) (xs : List A) → All P xs → All P (reverse xs)
All-reverse P [] h = tt
All-reverse P (x ∷ xs) (h, hs) =
    rw (reverse-cons x xs) (All-append P (reverse xs) (x ∷ []) (All-reverse P xs hs) (h, tt))

three_more : (n : ℕ) → leb 3 (suc (suc (suc n))) ≡ true
three_more n = ground arith

two_more : (n : ℕ) → leb 2 (suc (suc n)) ≡ true
two_more n = ground arith

one_more : (n : ℕ) → leb 1 (suc n) ≡ true
one_more n = ground arith

module _ {W : Type 0} ⦃d : Double W⦄ where
  page_r-r_of :
      (status : SignalStatus) (entry dist : W) (ps : List W)
      → page_r status entry dist ps ≡ r_of status entry dist ps
  unfolding page_r r_of
  page_r-r_of completed entry dist [] = refl
  page_r-r_of completed entry dist (p ∷ []) = refl
  page_r-r_of completed entry dist (p ∷ q ∷ []) = refl
  page_r-r_of completed entry dist (p ∷ q ∷ t ∷ ps) = rw (three_more (length ps)) refl
  page_r-r_of stopped entry dist [] = refl
  page_r-r_of stopped entry dist (p ∷ []) = refl
  page_r-r_of stopped entry dist (p ∷ q ∷ ps) = rw (two_more (length ps)) refl
  page_r-r_of tp2_hit entry dist [] = refl
  page_r-r_of tp2_hit entry dist (p ∷ []) = refl
  page_r-r_of tp2_hit entry dist (p ∷ q ∷ ps) = rw (two_more (length ps)) refl
  page_r-r_of tp1_hit entry dist [] = refl
  page_r-r_of tp1_hit entry dist (p ∷ ps) = rw (one_more (length ps)) refl
  page_r-r_of failed entry dist ps = refl
  page_r-r_of watching entry dist ps = refl
  page_r-r_of preliminary entry dist ps = refl
  page_r-r_of confirmed entry dist ps = refl
  page_r-r_of active entry dist ps = refl
  page_r-r_of invalidated entry dist ps = refl
  page_r-r_of expired entry dist ps = refl

  page_trade-size_trade : (s : SimSignal W) → page_trade s ≡ size_trade s
  unfolding page_trade size_trade
  page_trade-size_trade s =
      let dist = d.abs (d.sub s.preferred_entry s.stop_loss) in
      rw (page_r-r_of s.status s.preferred_entry dist (filter d.is_finite s.take_profits)) refl

  map-page_trade : (ss : List (SimSignal W)) → map page_trade ss ≡ map size_trade ss
  map-page_trade [] = refl
  map-page_trade (s ∷ ss) = rw (page_trade-size_trade s, map-page_trade ss) refl

  -- A trade of a closed signal.
  abbrev IsClosed : Sized W → Type 0
  IsClosed t = is_closed (t.signal).status ≡ true

  page_row-row_of :
      (st : Settings W) (eq : W) (t : Sized W)
      → st.fixed_mode ≡ false
      → IsClosed t
      → page_row st eq t ≡ row_of st.account eq t
  unfolding page_row page_lot row_of ideal_lot
  page_row-row_of st eq t risk closed = simp (risk, closed)

  page_rows-rows_from :
      (st : Settings W) (eq : W) (ts : List (Sized W))
      → st.fixed_mode ≡ false
      → All IsClosed ts
      → page_rows st eq ts ≡ rows_from st.account eq ts
  unfolding page_rows rows_from
  page_rows-rows_from st eq [] risk closed = refl
  page_rows-rows_from st eq (t ∷ ts) risk (c, closed) = rw (page_row-row_of st eq t risk c) (
      ap (◌∷◌ (row_of st.account eq t))
        (page_rows-rows_from st (row_of st.account eq t).eq_after ts risk closed))

  page_final-final_from :
      (st : Settings W) (eq : W) (ts : List (Sized W))
      → st.fixed_mode ≡ false
      → All IsClosed ts
      → page_final st eq ts ≡ final_from st.account eq ts
  unfolding final_from
  page_final-final_from st eq [] risk closed = refl
  page_final-final_from st eq (t ∷ ts) risk (c, closed) =
      rw (page_row-row_of st eq t risk c)
        (page_final-final_from st (row_of st.account eq t).eq_after ts risk closed)

  trades-IsClosed :
      (ss : List (SimSignal W))
      → All (λ s. is_closed s.status ≡ true) ss
      → All IsClosed (map size_trade ss)
  trades-IsClosed [] h = tt
  trades-IsClosed (s ∷ ss) (h, hs) = (rw (sized_signal s) h, trades-IsClosed ss hs)

  -- What the page shows of its own account that `computeSim` gives too.
  abbrev pub of_page : PageSim W → Sim W
  of_page p = record {
    rows = p.rows;
    n = p.n;
    wins = p.wins;
    final = p.final;
    sum_r = p.sum_r;
    lot_capped = p.lot_capped;
  }

  simulate-compute_sim :
      (st : Settings W) (items : List (SimSignal W))
      → st.fixed_mode ≡ false
      → All (λ s. is_closed s.status ≡ true) items
      → of_page (simulate st items) ≡ compute_sim items st.account
  unfolding simulate compute_sim
  simulate-compute_sim st items risk closed =
      let trades = map size_trade (reverse items) in
      let all_closed = trades-IsClosed (reverse items) (All-reverse _ items closed) in
      rw
        (
          map-page_trade (reverse items),
          page_rows-rows_from st (st.account).deposit trades risk all_closed,
          page_final-final_from st (st.account).deposit trades risk all_closed,
          risk,
        )
        refl

  shown-IsClosed :
      (st : Settings W) (verdict : Option AiVerdict) (min_conf : W) (rows : List (TableRow W))
      → All (λ s. is_closed s.status ≡ true) (in_range st (filter (is_shown verdict min_conf) rows))
  unfolding in_range
  shown-IsClosed st verdict min_conf rows = All-map _ sim_signal _ (
      All-filter _ (is_in_range st) (filter (is_shown verdict min_conf) rows) (
        All-map' (filter (is_shown verdict min_conf) rows)
          (λ t e. elim (Bool-cases (is_closed t.row.status)) [
            | inl c ↦ c
            | inr c ↦ let bad : false ≡ true = rw c at e in cc
          ])
          (filter-All (is_shown verdict min_conf) rows)))

  -- For the choice `CLOSED` and with the lot taken from the risk, the account of the page, with whatever
  -- dates, verdict and confidence, is that of `computeSim` on the same signals: the same rows, counts,
  -- final equity and sum of R.
  pub page-compute_sim :
      (st : Settings W) (verdict : Option AiVerdict) (min_conf : ℕ) (rows : List (TableRow W))
      → st.fixed_mode ≡ false
      → of_page (simulate st (in_range st (fetch_signals all_closed verdict min_conf rows)))
        ≡ compute_sim (in_range st (fetch_signals all_closed verdict min_conf rows)) st.account
  unfolding fetch_signals
  page-compute_sim st verdict min_conf rows risk =
      simulate-compute_sim st (in_range st (fetch_signals all_closed verdict min_conf rows)) risk (
        shown-IsClosed st verdict (of_ℕ min_conf)
          (fetch_all (λ offset. list (query_at none none none offset) rows)))
