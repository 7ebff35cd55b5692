-- ===== src/Sim.antt =====
-- apps/web/src/lib/sim.ts: the simulated account, one trade after the other. Prices are numbers here;
-- the rows hold decimal texts that `Number` reads.
pub mod Equity
use mmxm.Prelude.{
  ℕ, suc, ◌+◌, Bool, true, false, not, ◌&&◌, ◌||◌, Option, none, some, List, [], ◌∷◌, map, reverse,
  String, ltb, if◌then◌else◌, length, filter, foldl, last,
}
use mmxm.Double.{Double, of_ℕ}
use mmxm.Types.{Direction, SignalStatus, completed, tp1_hit, tp2_hit, failed, stopped}

pub record SimSignal (W : Type 0) : Type 0 where
  pub id : String
  pub status : SignalStatus
  pub preferred_entry : W
  pub take_profits : List W
  pub stop_loss : W

pub record Account (W : Type 0) : Type 0 where
  pub deposit : W
  pub risk_pct : W
  pub max_lot : W

pub record Sized (W : Type 0) : Type 0 where
  pub signal : SimSignal W
  pub r : W
  pub sl_dist : W

pub record SimRow (W : Type 0) : Type 0 where
  pub signal : SimSignal W
  pub r : W
  pub sl_dist : W
  pub lot : W
  pub pnl : W
  pub eq_after : W

pub record Sim (W : Type 0) : Type 0 where
  pub rows : List (SimRow W)
  pub n : ℕ
  pub wins : ℕ
  pub final : W
  pub sum_r : W
  pub lot_capped : ℕ

-- CLOSED
abbrev pub is_closed : SignalStatus → Bool
is_closed completed = true
is_closed tp1_hit = true
is_closed tp2_hit = true
is_closed failed = true
is_closed stopped = true
is_closed _ = false

module _ {W : Type 0} ⦃d : Double W⦄ where
  open d use {add, sub, mul, div, neg, abs, min, lt, le, is_finite, lit}

  -- `R(i)` of the price at `i`.
  abbrev pub reward : W → W → W → W
  reward entry dist price = div (abs (sub price entry)) dist

  abbrev pub or_entry : W → Option W → W
  or_entry entry none = entry
  or_entry entry (some p) = p

  -- The chain of tests on the status and the number of targets.
  unfoldable pub r_of : SignalStatus → W → W → List W → W
  r_of completed entry dist (p ∷ q ∷ t ∷ ps) =
      add (add (mul (lit 25 2) (reward entry dist p)) (mul (lit 25 2) (reward entry dist q)))
        (mul (lit 5 1) (reward entry dist t))
  r_of completed entry dist ps = reward entry dist (or_entry entry (last ps))
  r_of stopped entry dist (p ∷ q ∷ ps) =
      add (mul (lit 25 2) (reward entry dist p)) (mul (lit 25 2) (reward entry dist q))
  r_of stopped entry dist (p ∷ []) = mul (lit 25 2) (reward entry dist p)
  r_of stopped entry dist [] = neg (of_ℕ 1)
  r_of tp2_hit entry dist (p ∷ q ∷ ps) =
      sub (add (mul (lit 25 2) (reward entry dist p)) (mul (lit 25 2) (reward entry dist q)))
        (lit 5 1)
  r_of tp1_hit entry dist (p ∷ ps) = sub (mul (lit 25 2) (reward entry dist p)) (lit 75 2)
  r_of failed entry dist ps = neg (of_ℕ 1)
  r_of _ entry dist ps = of_ℕ 0

  -- `slDist === 0` holds for both zeros and not for NaN.
  unfoldable pub size_trade : SimSignal W → Sized W
  size_trade s =
      let dist = abs (sub s.preferred_entry s.stop_loss) in
      if le dist (of_ℕ 0) && le (of_ℕ 0) dist
      then record { signal = s; r = of_ℕ 0; sl_dist = of_ℕ 0 }
      else record {
        signal = s;
        r = r_of s.status s.preferred_entry dist (filter is_finite s.take_profits);
        sl_dist = dist;
      }

  unfoldable pub ideal_lot : Account W → W → Sized W → W
  ideal_lot a eq t =
      if lt (of_ℕ 0) t.sl_dist
      then div (mul eq (div a.risk_pct (of_ℕ 100))) (mul t.sl_dist (of_ℕ 100))
      else of_ℕ 0

  -- One trade on the account, with the equity before it.
  unfoldable pub row_of : Account W → W → Sized W → SimRow W
  row_of a eq t =
      let lot = min (ideal_lot a eq t) a.max_lot in
      let pnl =
        if is_closed (t.signal).status
        then mul (mul (mul lot t.sl_dist) (of_ℕ 100)) t.r
        else of_ℕ 0 in
      record {
        signal = t.signal;
        r = t.r;
        sl_dist = t.sl_dist;
        lot = lot;
        pnl = pnl;
        eq_after = add eq pnl;
      }

  -- The map that carries the equity along.
  unfoldable pub rows_from : Account W → W → List (Sized W) → List (SimRow W)
  rows_from a eq [] = []
  rows_from a eq (t ∷ ts) = let row = row_of a eq t in row ∷ rows_from a row.eq_after ts

  unfoldable pub final_from : Account W → W → List (Sized W) → W
  final_from a eq [] = eq
  final_from a eq (t ∷ ts) = final_from a (row_of a eq t).eq_after ts

  unfoldable pub compute_sim : List (SimSignal W) → Account W → Sim W
  compute_sim items a =
      let trades = map size_trade (reverse items) in
      let rows = rows_from a a.deposit trades in
      record {
        rows = rows;
        n = length rows;
        wins = length (filter (λ x. lt (of_ℕ 0) x.r) rows);
        final = final_from a a.deposit trades;
        sum_r = foldl (λ s x. add s x.r) (of_ℕ 0) rows;
        lot_capped =
            length
              (filter (λ x. lt (of_ℕ 0) x.sl_dist && le a.max_lot x.lot && lt (of_ℕ 0) x.lot) rows);
      }
