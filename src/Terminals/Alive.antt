-- ===== src/Terminals/Alive.antt =====
-- apps/api/src/modules/mql5-terminal/mql5-terminal.controller.ts with the heartbeat of
-- apps/api/src/modules/mql5-gateway/mql5-gateway.controller.ts: what a heartbeat changes in the list.
use mmxm.Prelude.{
  ℕ, ◌-◌, ◌≡◌, refl, sym, ◌∙◌, ap, true, ◌&&◌, List, [], ◌∷◌, ◌++◌, map, reverse, String, same_text,
  if◌then◌else◌, Bool-cases, inl, inr,
}
use mathlib.Core.List.{reverse-cons}
use mmxm.Prelude.Loops.{map-append}
use mmxm.Guard.{AuthContext}
use mmxm.Wire.{HeartbeatDto}
use mmxm.Gateway.{TerminalRow, GatewayStore, has_terminal, beat, heartbeat}
use mmxm.Terminals.{TerminalStatus, ListedTerminal, status_of_age, listed_terminal, list_terminals}

-- The ids of the listed terminals with their statuses.
abbrev pub statuses : {W : Type 0} → List (ListedTerminal W) → List (String × TerminalStatus)
statuses ts = map (λ t. ((t.row).id, t.computed_status)) ts

module _ {A B C : Type 0} (a : B → C) (b : A → B) (g : A → C) (same : (t : A) → a (b t) ≡ g t) where
  map-map : (xs : List A) → map a (map b xs) ≡ map g xs
  map-map [] = refl
  map-map (x ∷ xs) = rw (same x) (ap (◌∷◌ (g x)) (map-map xs))

  map-reverse-map : (xs : List A) → map a (reverse (map b xs)) ≡ map g (reverse xs)
  map-reverse-map [] = refl
  map-reverse-map (x ∷ xs) =
      ap (map a) (reverse-cons (b x) (map b xs))
      ∙ map-append a (reverse (map b xs)) (b x ∷ [])
      ∙ ap (λ r. r ++ a (b x) ∷ []) (map-reverse-map xs)
      ∙ ap (λ v. map g (reverse xs) ++ v ∷ []) (same x)
      ∙ sym (map-append g (reverse xs) (x ∷ []))
      ∙ ap (map g) (sym (reverse-cons x xs))

module _ {W : Type 0} where
  abbrev line : ℕ → TerminalRow W → String × TerminalStatus
  line seen t = (t.id, (listed_terminal seen t).computed_status)

  statuses_lem :
      (seen : ℕ) (rows : List (TerminalRow W))
      → statuses (list_terminals seen rows) ≡ map (line seen) (reverse rows)
  unfolding list_terminals listed_terminal
  statuses_lem seen rows =
      map-map (λ (l : ListedTerminal W). ((l.row).id, l.computed_status)) (listed_terminal seen)
        (line seen) (λ t. refl) (reverse rows)

module _ {W S : Type 0} where
  -- A heartbeat at `now` of a terminal in the table: the list at any time shows that terminal with the
  -- status of the time since `now`, and every other as it would have without the heartbeat. A
  -- heartbeat of a terminal that is not in the table changes nothing of the list. The counts of what is
  -- pending in the heartbeat play no part.
  pub heartbeat_status :
      (now seen : ℕ) (ctx : AuthContext) (h : HeartbeatDto) (s : GatewayStore W S)
      → statuses (list_terminals seen (heartbeat now ctx h s).1.terminals)
        ≡ map
            (λ t. (
              t.id,
              if has_terminal ctx.terminal_db_id s.terminals && same_text t.id ctx.terminal_db_id
                  then status_of_age (seen - now)
                  else (listed_terminal seen t).computed_status,
            ))
            (reverse s.terminals)
  unfolding heartbeat beat listed_terminal
  heartbeat_status now seen ctx h s =
      elim (Bool-cases (has_terminal ctx.terminal_db_id s.terminals)) [
        | inr e ↦ rw e (statuses_lem seen s.terminals)
        | inl e ↦ rw e (
            statuses_lem seen (beat now ctx.terminal_db_id s.terminals)
            ∙ map-reverse-map (line seen)
                (λ t.
                  if same_text t.id ctx.terminal_db_id
                  then record t { is_online = true; last_heartbeat_at = now }
                  else t)
                _
                (λ t. elim (Bool-cases (same_text t.id ctx.terminal_db_id)) [
                  | inl k ↦ rw k refl
                  | inr k ↦ rw k refl
                ])
                s.terminals)
      ]
