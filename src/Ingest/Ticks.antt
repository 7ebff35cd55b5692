-- ===== src/Ingest/Ticks.antt =====
-- apps/api/src/modules/mql5-gateway/ingestion.service.ts, `ingestTicks`: ticks that are sent again.
use mmxm.Prelude.{
  ℕ, suc, ◌+◌, ◌*◌, ◌≤◌, ◌<◌, ◌≡◌, refl, ap, true, List, [], ◌∷◌, map, String, any, length, All,
  Distinct, Bool-cases, inl, inr, arith,
}
use mathlib.Core.List.{append-nil}
use mmxm.Prelude.Loops.{All-map'}
use mmxm.KeyStore.{KeyStore, IsKeyStore}
use mmxm.KeyStore.Held.{IsHeld, set_nx-IsHeld, set_nx_fresh}
use mmxm.Wire.{TickDto}
use mmxm.Ingest.{Counts, TickStore, dedupe_key, dedupe, create_many, sort_out, ingest_ticks}
use mmxm.Ingest.TickTable.{event_id_of, is_event, create_many-Distinct, create_many-stores}

abbrev one_day : ℕ
one_day = 86_400 * 1000

module _ {W S : Type 0} ⦃k : KeyStore S⦄ where
  -- The parts of the result of the first loop.
  abbrev pub counts_of : Counts × List (TickDto W) × S → Counts
  counts_of r = r.0

  abbrev pub fresh_of : Counts × List (TickDto W) × S → List (TickDto W)
  fresh_of r = r.1

  abbrev pub keys_of : Counts × List (TickDto W) × S → S
  keys_of r = r.2

  sort_out-counts :
      (now : ℕ) (ts : List (TickDto W)) (keys : S)
      → ((counts_of (sort_out now ts keys)).accepted ≡ length (fresh_of (sort_out now ts keys)))
        × ((counts_of (sort_out now ts keys)).accepted
              + (counts_of (sort_out now ts keys)).duplicated
            ≡ length ts)
  unfolding sort_out
  sort_out-counts now [] keys = (refl, refl)
  sort_out-counts now (t ∷ ts) keys =
      let rest = sort_out-counts now ts (dedupe t.event_id now keys).1 in
      elim (Bool-cases (dedupe t.event_id now keys).0) [
        | inl e ↦ rw e (ap suc rest.0, omega (arith, rest.1))
        | inr e ↦ rw e (rest.0, omega (arith, rest.1))
      ]

  module _ ⦃law : IsKeyStore S⦄ where
    sort_out-IsHeld :
        (key : String) (from until now : ℕ) (ts : List (TickDto W)) (keys : S)
        → from ≤ now
        → now < until
        → IsHeld key from until keys
        → IsHeld key from until (keys_of (sort_out now ts keys))
    unfolding sort_out dedupe
    sort_out-IsHeld key from until now [] keys low high h = h
    sort_out-IsHeld key from until now (t ∷ ts) keys low high h =
        let next =
          set_nx-IsHeld key (dedupe_key t.event_id) from until now 86_400 keys low high h in
        let rest = sort_out-IsHeld key from until now ts _ low high next in
        elim (Bool-cases (dedupe t.event_id now keys).0) [ inl e ↦ rw e rest | inr e ↦ rw e rest ]

    -- The key of every accepted tick is there for a day.
    fresh-IsHeld :
        (now : ℕ) (ts : List (TickDto W)) (keys : S)
        → All
            (λ t.
              IsHeld (dedupe_key t.event_id) now (now + one_day) (keys_of (sort_out now ts keys)))
            (fresh_of (sort_out now ts keys))
    unfolding sort_out dedupe
    fresh-IsHeld now [] keys = tt
    fresh-IsHeld now (t ∷ ts) keys =
        let rest = fresh-IsHeld now ts (dedupe t.event_id now keys).1 in
        elim (Bool-cases (dedupe t.event_id now keys).0) [
          | inl e ↦ rw e (
            sort_out-IsHeld (dedupe_key t.event_id) now (now + one_day) now ts _ (omega arith)
                (omega arith) (set_nx_fresh (dedupe_key t.event_id) now 86_400 keys e),
            rest,
          )
          | inr e ↦ rw e rest
        ]

    -- Ticks whose keys are there are all duplicates, and change nothing.
    sort_out_of_held :
        (now : ℕ) (ts : List (TickDto W)) (keys : S)
        → All (λ t. k.held (dedupe_key t.event_id) now keys ≡ true) ts
        → sort_out now ts keys ≡ (record { accepted = 0; duplicated = length ts }, [], keys)
    unfolding sort_out dedupe
    sort_out_of_held now [] keys h = refl
    sort_out_of_held now (t ∷ ts) keys (h, hs) =
        rw
          (
            law.answer (dedupe_key t.event_id) now 86_400 keys,
            law.kept (dedupe_key t.event_id) now 86_400 keys h,
            h,
            sort_out_of_held now ts keys hs,
          )
          refl

module _ {W S : Type 0} ⦃k : KeyStore S⦄ where
  -- The ticks of a batch that are accepted.
  abbrev pub accepted_of : ℕ → List (TickDto W) → TickStore W S → List (TickDto W)
  accepted_of now ts s = fresh_of (sort_out now ts s.keys)

  -- Every tick is counted once, the accepted ones are in the table afterwards, and no event id is
  -- there twice if none was before.
  pub ingest_ticks-stores :
      (terminal : String) (now : ℕ) (ts : List (TickDto W)) (s : TickStore W S)
      → Distinct (map event_id_of s.rows)
      → (let (counts, after) = ingest_ticks terminal now ts s in
          (counts.accepted + counts.duplicated ≡ length ts)
          × (counts.accepted ≡ length (accepted_of now ts s))
          × All (λ t. any (is_event t.event_id) after.rows ≡ true) (accepted_of now ts s)
          × Distinct (map event_id_of after.rows))
  unfolding ingest_ticks
  ingest_ticks-stores terminal now ts s distinct = (
    (sort_out-counts now ts s.keys).1,
    (sort_out-counts now ts s.keys).0,
    create_many-stores terminal (accepted_of now ts s) s.rows,
    create_many-Distinct terminal (accepted_of now ts s) s.rows distinct,
  )

  -- With a store of keys that keeps its laws, the ticks that a batch had accepted are all duplicates when
  -- they are sent again within a day, and nothing changes then.
  pub ingest_ticks-resend :
      ⦃law : IsKeyStore S⦄ (terminal again : String) (now later : ℕ) (ts : List (TickDto W))
      (s : TickStore W S)
      → now ≤ later
      → later < now + one_day
      → (let after = (ingest_ticks terminal now ts s).1 in
          let sent = accepted_of now ts s in
          ingest_ticks again later sent after
          ≡ (record { accepted = 0; duplicated = length sent }, after))
  unfolding ingest_ticks create_many
  ingest_ticks-resend terminal again now later ts s low high =
      let here =
        All-map' (accepted_of now ts s) (λ t h. h later low high) (fresh-IsHeld now ts s.keys) in
      rw (sort_out_of_held later (accepted_of now ts s) (keys_of (sort_out now ts s.keys)) here)
        (rw (append-nil _) refl)
