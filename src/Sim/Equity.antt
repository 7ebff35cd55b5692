-- ===== src/Sim/Equity.antt =====
-- apps/web/src/lib/sim.ts: the equity, the order of the rows and the size of each trade.
use mmxm.Prelude.{
  ◌≡◌, refl, ◌∙◌, ap, List, [], ◌∷◌, map, reverse, foldl, ◌&&◌, Bool-cases, inl, inr,
}
use mmxm.Double.{Double, of_ℕ}
use mmxm.Sim.{SimSignal, Account, Sized, size_trade, row_of, rows_from, final_from, compute_sim}

module _ {W : Type 0} ⦃d : Double W⦄ where
  signals_from :
      (a : Account W) (eq : W) (ts : List (Sized W))
      → map (λ x. x.signal) (rows_from a eq ts) ≡ map (λ t. t.signal) ts
  unfolding rows_from row_of
  signals_from a eq [] = refl
  signals_from a eq (t ∷ ts) = ap (◌∷◌ t.signal) (signals_from a (row_of a eq t).eq_after ts)

  final_of_pnls :
      (a : Account W) (eq : W) (ts : List (Sized W))
      → final_from a eq ts ≡ foldl d.add eq (map (λ x. x.pnl) (rows_from a eq ts))
  unfolding final_from rows_from row_of
  final_of_pnls a eq [] = refl
  final_of_pnls a eq (t ∷ ts) = final_of_pnls a (row_of a eq t).eq_after ts

  pub sized_signal : (s : SimSignal W) → (size_trade s).signal ≡ s
  unfolding size_trade
  sized_signal s =
      let dist = d.abs (d.sub s.preferred_entry s.stop_loss) in
      elim (Bool-cases (d.le dist (of_ℕ 0) && d.le (of_ℕ 0) dist)) [
        | inl e ↦ rw e refl
        | inr e ↦ rw e refl
      ]

  sized_signals : (ss : List (SimSignal W)) → map (λ t. t.signal) (map size_trade ss) ≡ ss
  sized_signals [] = refl
  sized_signals (s ∷ ss) = rw (sized_signal s, sized_signals ss) refl

  -- The final equity is the deposit with the profit and loss of every row added in their order.
  pub compute_sim_final :
      (items : List (SimSignal W)) (a : Account W)
      → (compute_sim items a).final
        ≡ foldl d.add a.deposit (map (λ x. x.pnl) (compute_sim items a).rows)
  unfolding compute_sim
  compute_sim_final items a = final_of_pnls a a.deposit (map size_trade (reverse items))

  -- There is one row for each signal, and the rows are in the reverse order of the signals, which
  -- come newest first.
  pub compute_sim_order :
      (items : List (SimSignal W)) (a : Account W)
      → map (λ x. x.signal) (compute_sim items a).rows ≡ reverse items
  unfolding compute_sim
  compute_sim_order items a =
      signals_from a a.deposit (map size_trade (reverse items)) ∙ sized_signals (reverse items)
