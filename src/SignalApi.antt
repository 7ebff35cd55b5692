-- ===== src/SignalApi.antt =====
-- apps/api/src/modules/signal/signal.controller.ts: the stored signals that the API gives out. Signals of one
-- moment come in the order of the table, which the query leaves open. A number in a query is what
-- `parseInt` makes of it, none where it is missing or no number; a negative one is not modelled.
use mmxm.Prelude.{
  ℕ, ◌==◌, Bool, true, false, Option, none, some, List, String, leb, same_text, if◌then◌else◌,
  filter, find, take, drop, length, sort_by,
}
use mmxm.Types.{
  SignalStatus, watching, preliminary, confirmed, active, invalidated, expired, tp1_hit, tp2_hit,
  completed, stopped, failed,
}
use mmxm.Worker.Rows.{TableRow}

-- The query as a client writes it. The handler reads the first three.
pub record Query (V : Type 0) : Type 0 where
  pub status : Option SignalStatus
  pub limit : Option ℕ
  pub offset : Option ℕ
  pub verdict : Option V
  pub min_conf : Option ℕ

pub record Page (A : Type 0) : Type 0 where
  pub items : List A
  pub total : ℕ
  pub taken : ℕ
  pub skipped : ℕ

abbrev pub same_status : SignalStatus → SignalStatus → Bool
same_status watching watching = true
same_status preliminary preliminary = true
same_status confirmed confirmed = true
same_status active active = true
same_status invalidated invalidated = true
same_status expired expired = true
same_status tp1_hit tp1_hit = true
same_status tp2_hit tp2_hit = true
same_status completed completed = true
same_status stopped stopped = true
same_status failed failed = true
same_status _ _ = false

-- `Math.min(parseInt(limit, 10) || 50, 200)`
abbrev pub take_of : Option ℕ → ℕ
take_of none = 50
take_of (some n) = if n == 0 then 50 else if leb n 200 then n else 200

-- `parseInt(offset, 10) || 0`
abbrev pub skip_of : Option ℕ → ℕ
skip_of none = 0
skip_of (some n) = n

module _ {W : Type 0} where
  abbrev pub is_asked : Option SignalStatus → TableRow W → Bool
  is_asked none t = true
  is_asked (some s) t = same_status s t.row.status

  -- `orderBy: { detectedAt: 'desc' }`
  abbrev pub newest_first : List (TableRow W) → List (TableRow W)
  newest_first rows = sort_by (λ a b. leb b.detected_at a.detected_at) rows

  abbrev pub asked_rows : Option SignalStatus → List (TableRow W) → List (TableRow W)
  asked_rows status rows = newest_first (filter (is_asked status) rows)

  unfoldable pub list : {V : Type 0} → Query V → List (TableRow W) → Page (TableRow W)
  list q rows = record {
    items = take (take_of q.limit) (drop (skip_of q.offset) (asked_rows q.status rows));
    total = length (filter (is_asked q.status) rows);
    taken = take_of q.limit;
    skipped = skip_of q.offset;
  }

  -- `findUnique`: none is the answer `NOT_FOUND`.
  pub detail : String → List (TableRow W) → Option (TableRow W)
  detail id rows = find (λ t. same_text t.row.id id) rows
