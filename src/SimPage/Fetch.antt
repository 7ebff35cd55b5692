-- ===== src/SimPage/Fetch.antt =====
-- apps/web/src/app/simulasi/page.tsx, `queryFn`: the signals that the page fetches, page by page. The
-- table stays as it is between the requests of one fetch.
use mmxm.Prelude.{
  ℕ, zero, suc, Bool, true, false, ◌&&◌, Option, none, some, List, [], ◌∷◌, ◌++◌, ltb,
  if◌then◌else◌, length, filter,
}
use mmxm.Double.{Double, of_ℕ}
use mmxm.Types.{SignalStatus}
use mmxm.Notify.{AiVerdict, agree, disagree, neutral}
use mmxm.Worker.Rows.{TableRow}
use mmxm.SignalApi.{Query, Page, list}
use mmxm.Sim.{is_closed}

-- The choice of a status: `CLOSED`, none, or one.
pub data Choice : Type 0 where
  all_closed all_statuses : Choice
  one_status : SignalStatus → Choice

abbrev pub same_verdict : AiVerdict → AiVerdict → Bool
same_verdict agree agree = true
same_verdict disagree disagree = true
same_verdict neutral neutral = true
same_verdict _ _ = false

abbrev pub has_verdict : Option AiVerdict → Option AiVerdict → Bool
has_verdict none v = true
has_verdict (some w) none = false
has_verdict (some w) (some v) = same_verdict v w

abbrev pub is_nil : {A : Type 0} → List A → Bool
is_nil [] = true
is_nil (_ ∷ _) = false

-- `/signals?limit=200&offset=…` with the parameters that are set. Where one is given twice `parseInt`
-- reads the first.
abbrev pub query_at : Option SignalStatus → Option AiVerdict → Option ℕ → ℕ → Query AiVerdict
query_at status verdict min_conf offset = record {
  status = status;
  limit = some 200;
  offset = some offset;
  verdict = verdict;
  min_conf = min_conf;
}

module _ {A : Type 0} where
  -- The loop `while (items.length < total)`, with its break at an empty page. The server answers at
  -- each offset.
  unfoldable pub fetch_rest : ℕ → (ℕ → Page A) → ℕ → List A → List A
  fetch_rest zero server total items = items
  fetch_rest (suc fuel) server total items =
      let next = (server (length items)).items in
      let rest = fetch_rest fuel server total (items ++ next) in
      if ltb (length items) total then (if is_nil next then items else rest) else items

  -- A turn that goes on adds a row, so there are at most as many turns as rows are asked for.
  unfoldable pub fetch_all : (ℕ → Page A) → List A
  fetch_all server = fetch_rest (server 0).total server (server 0).total (server 0).items

-- `minConf` is set where it is not 0.
abbrev pub min_conf_of : ℕ → Option ℕ
min_conf_of zero = none
min_conf_of (suc n) = some (suc n)

module _ {W : Type 0} ⦃d : Double W⦄ where
  open d use {le}

  -- What is kept of the rows where the status is `CLOSED`.
  abbrev pub is_shown : Option AiVerdict → W → TableRow W → Bool
  is_shown verdict min_conf t =
      is_closed t.row.status && has_verdict verdict t.ai_insight && le min_conf t.confidence

  -- `queryFn`, on the table of the API.
  unfoldable pub fetch_signals :
      Choice → Option AiVerdict → ℕ → List (TableRow W) → List (TableRow W)
  fetch_signals all_closed verdict min_conf rows =
      filter (is_shown verdict (of_ℕ min_conf))
        (fetch_all (λ offset. list (query_at none none none offset) rows))
  fetch_signals all_statuses verdict min_conf rows =
      fetch_all (λ offset. list (query_at none verdict (min_conf_of min_conf) offset) rows)
  fetch_signals (one_status s) verdict min_conf rows =
      fetch_all (λ offset. list (query_at (some s) verdict (min_conf_of min_conf) offset) rows)
