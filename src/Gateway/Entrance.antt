-- ===== src/Gateway/Entrance.antt =====
-- apps/api/src/modules/mql5-gateway/: the guard and the handlers together.
use mmxm.Prelude.{
  ℕ, ◌≡◌, refl, ◌⊎◌, inl, inr, true, some, List, [], ◌∷◌, map, String, same_text, same_text_refl,
  same_text_iff, Bool-cases, or_true,
}
use mmxm.Double.{Double}
use mmxm.KeyStore.{KeyStore, IsKeyStore}
use mmxm.Guard.{
  Entry, let_in, refused, Refusal, AuthContext, Request, GuardSettings, Terminal, known,
  can_activate,
}
use mmxm.Guard.Authentic.{IsAuthentic, can_activate-let_in}
use mmxm.Wire.{HandshakeDto, is_handshake}
use mmxm.Gateway.{
  TerminalRow, GatewayStore, Call, as_known, new_terminal, known_again, upsert_terminal,
  has_terminal, handshake, enter_with, receive,
}
use mmxm.Gateway.Tables.{IsSound, IsFresh, handle-IsSound}

entry_cases :
    (e : Entry) → ((ctx : AuthContext) × (e ≡ let_in ctx)) ⊎ ((why : Refusal) × (e ≡ refused why))
entry_cases (let_in ctx) = inl (ctx, refl)
entry_cases (refused why) = inr (why, refl)

module _ {W : Type 0} where
  -- The guard finds the row that the upsert has written.
  known-upsert :
      (now : ℕ) (id : String) (h : HandshakeDto W) (ts : List (TerminalRow W))
      → known (map as_known (upsert_terminal now id h ts).1) h.terminal_id
        ≡ some (record {
          id = (upsert_terminal now id h ts).0;
          terminal_id = h.terminal_id;
          broker_symbol = h.broker_symbol;
        })
  unfolding upsert_terminal known_again new_terminal
  known-upsert now id h [] = rw (same_text_refl h.terminal_id) refl
  known-upsert now id h (t ∷ ts) = elim (Bool-cases (same_text t.terminal_id h.terminal_id)) [
    | inl e ↦
        rw (e, (same_text_iff t.terminal_id h.terminal_id).0 e, same_text_refl h.terminal_id) refl
    | inr e ↦ rw (e, e) (known-upsert now id h ts)
  ]

  upsert-has_terminal :
      (now : ℕ) (id : String) (h : HandshakeDto W) (ts : List (TerminalRow W))
      → has_terminal (upsert_terminal now id h ts).0 (upsert_terminal now id h ts).1 ≡ true
  unfolding upsert_terminal known_again new_terminal
  upsert-has_terminal now id h [] = rw (same_text_refl id) refl
  upsert-has_terminal now id h (t ∷ ts) =
      elim (Bool-cases (same_text t.terminal_id h.terminal_id)) [
        | inl e ↦ rw (e, same_text_refl t.id) refl
        | inr e ↦ rw (e, upsert-has_terminal now id h ts) (or_true _)
      ]

module _ {W S : Type 0} where
  -- After a handshake that the schema accepts, the guard knows the terminal, with the symbol that the
  -- handshake named, and its row is there for the requests that come with the guard's context.
  pub handshake-known :
      (now : ℕ) (id connection : String) (h : HandshakeDto W) (s : GatewayStore W S)
      → is_handshake h ≡ true
      → (let after = (handshake now id connection h s).1 in
          (t : Terminal) × (known (map as_known after.terminals) h.terminal_id ≡ some t)
          × (t.broker_symbol ≡ h.broker_symbol)
          × (has_terminal t.id after.terminals ≡ true))
  unfolding handshake
  handshake-known now id connection h s fine = rw fine (
    record {
      id = (upsert_terminal now id h s.terminals).0;
      terminal_id = h.terminal_id;
      broker_symbol = h.broker_symbol;
    },
    known-upsert now id h s.terminals,
    refl,
    upsert-has_terminal now id h s.terminals,
  )

module _ {W S : Type 0} ⦃d : Double W⦄ ⦃k : KeyStore S⦄ where
  -- The store with other keys.
  abbrev pub with_keys : S → GatewayStore W S → GatewayStore W S
  with_keys keys s = record s { ticks = record s.ticks { keys = keys } }

  -- With a store of keys that keeps its laws, only an authentic request reaches a table: any other leaves
  -- all of them as they are and is refused; of the keys, the guard may have spent the nonce.
  pub receive-guarded :
      ⦃law : IsKeyStore S⦄ (g : GuardSettings W) (r : Request) (now : ℕ) (call : Call W)
      (s : GatewayStore W S)
      → ((ctx : AuthContext) × IsAuthentic g (map as_known s.terminals) r now s.ticks.keys ctx)
        ⊎ ((why : Refusal) × (keys : S) × (receive g r now call s ≡ (inl why, with_keys keys s)))
  unfolding receive enter_with
  receive-guarded g r now call s =
      elim (entry_cases (can_activate g (map as_known s.terminals) r now s.ticks.keys).0) [
        | inl (ctx, e) ↦
            inl (ctx, (can_activate-let_in g (map as_known s.terminals) r now s.ticks.keys ctx).0 e)
        | inr (why, e) ↦ inr (
          why,
          (can_activate g (map as_known s.terminals) r now s.ticks.keys).1,
          rw (enter_with, e) refl,
        )
      ]

  enter_with-IsSound :
      (now : ℕ) (call : Call W) (p : Entry × S) (s : GatewayStore W S)
      → IsFresh call s.terminals
      → IsSound s
      → IsSound (enter_with now call p s).1
  unfolding enter_with
  enter_with-IsSound now call (refused why, keys) s fresh i = record {
    ids = i.ids;
    terminal_ids = i.terminal_ids;
    candles = i.candles;
    ticks = i.ticks;
  }
  enter_with-IsSound now call (let_in ctx, keys) s fresh i =
      handle-IsSound now ctx call (with_keys keys s) fresh (record {
        ids = i.ids;
        terminal_ids = i.terminal_ids;
        candles = i.candles;
        ticks = i.ticks;
      })

  -- A request with the time and the body it comes with.
  abbrev pub receive_all :
      GuardSettings W → List (Request × ℕ × Call W) → GatewayStore W S → GatewayStore W S
  receive_all g [] s = s
  receive_all g ((r, now, call) ∷ rest) s = receive_all g rest (receive g r now call s).1

  -- Every handshake of the list brings an id that is no row's when it comes.
  abbrev pub AllFresh : GuardSettings W → List (Request × ℕ × Call W) → GatewayStore W S → Type 0
  AllFresh g [] s = Unit
  AllFresh g ((r, now, call) ∷ rest) s =
      IsFresh call s.terminals × AllFresh g rest (receive g r now call s).1

  -- Whatever requests come, let in or not, sound tables stay sound: terminals have distinct database
  -- ids and distinct terminal ids (the ids that they sign in with; what else names them is not
  -- said), candles have distinct keys and ordered prices, and no tick is stored twice. The database
  -- id that a handshake brings for a new row is no row's.
  pub receive_all-IsSound :
      (g : GuardSettings W) (requests : List (Request × ℕ × Call W)) (s : GatewayStore W S)
      → AllFresh g requests s
      → IsSound s
      → IsSound (receive_all g requests s)
  unfolding receive
  receive_all-IsSound g [] s fresh i = i
  receive_all-IsSound g ((r, now, call) ∷ rest) s (first, others) i =
      receive_all-IsSound g rest (receive g r now call s).1 others (
        enter_with-IsSound now call (can_activate g (map as_known s.terminals) r now s.ticks.keys) s
          first i)
