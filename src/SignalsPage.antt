-- ===== src/SignalsPage.antt =====
-- apps/web/src/app/signals/page.tsx and apps/web/src/app/signals/[id]/page.tsx: the pages of the list, and the
-- targets that the two pages show as reached. The list's own account is `computeSim` (Sim).
pub mod Covers
pub mod Hits
mod Moves
mod Tests
use mmxm.Prelude.{
  ℕ, suc, ◌+◌, ◌-◌, ◌*◌, ◌/◌, ◌==◌, Bool, true, false, ◌||◌, Option, none, some, List, [], ◌∷◌, leb,
  if◌then◌else◌, any, find,
}
use mmxm.Types.{
  SignalStatus, watching, preliminary, confirmed, active, invalidated, expired, tp1_hit, tp2_hit,
  completed, stopped, failed,
}
use mmxm.Notify.{AiVerdict}
use mmxm.Worker.Rows.{SignalEvent, TableRow}
use mmxm.SignalApi.{Query, Page, list, same_status}

-- `tpHitCount`
abbrev pub tp_hit_count : SignalStatus → ℕ
tp_hit_count completed = 3
tp_hit_count tp2_hit = 2
tp_hit_count tp1_hit = 1
tp_hit_count _ = 0

-- `/signals?limit=20&offset=…` of a page, with the filters that are set.
abbrev pub page_query : Option SignalStatus → Option AiVerdict → Option ℕ → ℕ → Query AiVerdict
page_query status verdict min_conf page = record {
  status = status;
  limit = some 20;
  offset = some ((page - 1) * 20);
  verdict = verdict;
  min_conf = min_conf;
}

abbrev zero_if_none : Option ℕ → ℕ
zero_if_none none = 0
zero_if_none (some n) = n

-- `Math.max(1, Math.ceil((data?.total ?? 0) / 20))`
unfoldable pub total_pages : Option ℕ → ℕ
total_pages total = let pages = (zero_if_none total + 19) / 20 in if leb 1 pages then pages else 1

-- The number in `TP1_HIT` and `TP2_HIT`, the only statuses of that form.
abbrev pub hit_level_of : SignalStatus → Option ℕ
hit_level_of tp1_hit = some 1
hit_level_of tp2_hit = some 2
hit_level_of _ = none

abbrev pub is_level : ℕ → Option ℕ → Bool
is_level k none = false
is_level k (some l) = l == k

abbrev pub completed_level : Option SignalEvent → ℕ
completed_level none = 0
completed_level (some e) = zero_if_none e.level

-- Whether the target of a level is shown as hit, from the log of the signal.
pub is_hit : List SignalEvent → ℕ → Bool
is_hit events k =
    any (λ e. is_level k (hit_level_of e.to_status)) events
    || leb k (completed_level (find (λ e. same_status e.to_status completed) events))
