-- ===== src/SimPage.antt =====
-- apps/web/src/app/simulasi/page.tsx: the account that the page simulates with the signals it
-- has fetched. Prices are numbers here, a date is its number of days since 1970.
pub mod Fetch
pub mod Whole
pub mod Agrees
pub mod Falls
mod Tests
use mmxm.Prelude.{
  ℕ, zero, suc, ◌+◌, ◌/◌, Bool, true, false, ◌&&◌, ◌||◌, not, Option, none, some, List, [], ◌∷◌,
  ◌++◌, map, reverse, ltb, leb, if◌then◌else◌, length, get_elem?, filter, foldl, last,
}
use mmxm.Double.{Double, of_ℕ}
use mmxm.Types.{SignalStatus, completed, tp1_hit, tp2_hit, failed, stopped}
use mmxm.Notify.{AiVerdict, agree, disagree, neutral}
use mmxm.Worker.Rows.{TableRow}
use mmxm.SignalApi.{Query, Page, list, same_status}
use mmxm.Sim.{SimSignal, Account, Sized, SimRow, is_closed}

-- The state of the page that the simulation reads; a date of none is empty.
pub record Settings (W : Type 0) : Type 0 where
  pub account : Account W
  pub fixed_mode : Bool
  pub fixed_lot : W
  pub from_date : Option ℕ
  pub to_date : Option ℕ

pub record Drawdown (W : Type 0) : Type 0 where
  pub peak : W
  pub max_dd : W
  pub max_dd_pct : W
  pub current_dd : W
  pub current_dd_pct : W

pub record PageSim (W : Type 0) : Type 0 where
  pub rows : List (SimRow W)
  pub n : ℕ
  pub wins : ℕ
  pub final : W
  pub sum_r : W
  pub lot_capped : ℕ
  pub drawdown : Drawdown W

module _ {W : Type 0} ⦃d : Double W⦄ where
  open d use {add, sub, mul, div, neg, abs, max, min, lt, le, is_finite, lit}

  -- The columns of a row that the simulation reads.
  abbrev pub sim_signal : TableRow W → SimSignal W
  sim_signal t = record {
    id = t.row.id;
    status = t.row.status;
    preferred_entry = t.row.preferred_entry;
    take_profits = map (λ p. p.price) t.row.take_profits;
    stop_loss = t.row.stop_loss;
  }

  -- A price by its index; the reads are in range.
  abbrev pub price_at : List W → ℕ → W
  price_at ps i = elim (get_elem? ps i) [ some p ↦ p | none ↦ of_ℕ 0 ]

  abbrev pub last_or : W → List W → W
  last_or entry ps = elim (last ps) [ some p ↦ p | none ↦ entry ]

  -- The chain of tests for `r`.
  pub page_r : SignalStatus → W → W → List W → W
  page_r status entry dist ps =
      let r = λ (i : ℕ). div (abs (sub (price_at ps i) entry)) dist in
      let quarter : W = lit 25 2 in
      if same_status status completed && leb 3 (length ps)
      then add (add (mul quarter (r 0)) (mul quarter (r 1))) (mul (lit 5 1) (r 2))
      else if same_status status completed
      then div (abs (sub (last_or entry ps) entry)) dist
      else if same_status status stopped && leb 2 (length ps)
      then add (mul quarter (r 0)) (mul quarter (r 1))
      else if same_status status stopped && leb 1 (length ps)
      then mul quarter (r 0)
      else if same_status status tp2_hit && leb 2 (length ps)
      then sub (add (mul quarter (r 0)) (mul quarter (r 1))) (lit 5 1)
      else if same_status status tp1_hit && leb 1 (length ps)
      then sub (mul quarter (r 0)) (lit 75 2)
      else if same_status status failed || same_status status stopped
      then neg (of_ℕ 1)
      else of_ℕ 0

  -- `slDist === 0`
  pub page_trade : SimSignal W → Sized W
  page_trade s =
      let dist = abs (sub s.preferred_entry s.stop_loss) in
      if le dist (of_ℕ 0) && le (of_ℕ 0) dist
      then record { signal = s; r = of_ℕ 0; sl_dist = of_ℕ 0 }
      else record {
        signal = s;
        r = page_r s.status s.preferred_entry dist (filter is_finite s.take_profits);
        sl_dist = dist;
      }

  pub page_lot : Settings W → W → W → W
  page_lot st eq dist =
      if st.fixed_mode
      then max (lit 1 2) st.fixed_lot
      else min
          (if lt (of_ℕ 0) dist
            then div (mul eq (div (st.account).risk_pct (of_ℕ 100))) (mul dist (of_ℕ 100))
            else of_ℕ 0)
          (st.account).max_lot

  pub page_row : Settings W → W → Sized W → SimRow W
  page_row st eq t =
      let lot = page_lot st eq t.sl_dist in
      let pnl = mul (mul (mul lot t.sl_dist) (of_ℕ 100)) t.r in
      record {
        signal = t.signal;
        r = t.r;
        sl_dist = t.sl_dist;
        lot = lot;
        pnl = pnl;
        eq_after = add eq pnl;
      }

  pub page_rows : Settings W → W → List (Sized W) → List (SimRow W)
  page_rows st eq [] = []
  page_rows st eq (t ∷ ts) = let row = page_row st eq t in row ∷ page_rows st row.eq_after ts

  abbrev pub page_final : Settings W → W → List (Sized W) → W
  page_final st eq [] = eq
  page_final st eq (t ∷ ts) = page_final st (page_row st eq t).eq_after ts

  -- One turn of the loop over the rows.
  pub fall : W → Drawdown W → Drawdown W
  fall eq s =
      let peak = if lt s.peak eq then eq else s.peak in
      let dd = sub peak eq in
      let dd_pct = if lt (of_ℕ 0) peak then mul (div dd peak) (of_ℕ 100) else of_ℕ 0 in
      record {
        peak = peak;
        max_dd = if lt s.max_dd dd then dd else s.max_dd;
        max_dd_pct = if lt s.max_dd_pct dd_pct then dd_pct else s.max_dd_pct;
        current_dd = dd;
        current_dd_pct = dd_pct;
      }

  pub drawdown_from : Drawdown W → List W → Drawdown W
  drawdown_from s [] = s
  drawdown_from s (eq ∷ eqs) = drawdown_from (fall eq s) eqs

  pub drawdown_of : W → List W → Drawdown W
  drawdown_of deposit eqs =
      drawdown_from
        (record {
          peak = deposit;
          max_dd = of_ℕ 0;
          max_dd_pct = of_ℕ 0;
          current_dd = of_ℕ 0;
          current_dd_pct = of_ℕ 0;
        })
        eqs

  -- The filters by date, which compare the days that the texts begin with.
  abbrev pub is_in_range : Settings W → TableRow W → Bool
  is_in_range st t =
      let day = t.detected_at / 86_400_000 in
      elim st.from_date [ none ↦ true | some from ↦ leb from day ]
      && elim st.to_date [ none ↦ true | some upto ↦ leb day upto ]

  pub in_range : Settings W → List (TableRow W) → List (SimSignal W)
  in_range st items = map sim_signal (filter (is_in_range st) items)

  -- The rest of `useMemo`, on the signals of the period.
  pub simulate : Settings W → List (SimSignal W) → PageSim W
  simulate st items =
      let trades = map page_trade (reverse items) in
      let rows = page_rows st (st.account).deposit trades in
      record {
        rows = rows;
        n = length rows;
        wins = length (filter (λ x. lt (of_ℕ 0) x.r) rows);
        final = page_final st (st.account).deposit trades;
        sum_r = foldl (λ s x. add s x.r) (of_ℕ 0) rows;
        lot_capped =
            if st.fixed_mode
            then 0
            else length (
                filter
                  (λ x. lt (of_ℕ 0) x.sl_dist && le (st.account).max_lot x.lot && lt (of_ℕ 0) x.lot)
                  rows);
        drawdown = drawdown_of (st.account).deposit (map (λ x. x.eq_after) rows);
      }
