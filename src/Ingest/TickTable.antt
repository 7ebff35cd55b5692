-- ===== src/Ingest/TickTable.antt =====
-- apps/api/src/modules/mql5-gateway/ingestion.service.ts, `ingestTicks`: the table of ticks.
use mmxm.Prelude.{
  ◌≡◌, ◌≢◌, refl, Bool, true, false, List, [], ◌∷◌, ◌++◌, map, String, same_text_refl, same_text,
  same_text_iff, if◌then◌else◌, any, All, Distinct, Bool-cases, inl, inr,
}
use mmxm.Prelude.Loops.{Distinct-append, map-append}
use mmxm.Wire.{TickDto}
use mmxm.Ingest.{TickRow, create_many}

module _ {W : Type 0} where
  abbrev pub event_id_of : TickRow W → String
  event_id_of r = r.tick.event_id

  abbrev pub is_event : String → TickRow W → Bool
  is_event event_id r = same_text r.tick.event_id event_id

  not_any :
      (event_id : String) (rows : List (TickRow W))
      → any (is_event event_id) rows ≡ false
      → All (λ i. i ≢ event_id) (map event_id_of rows)
  not_any event_id [] h = tt
  not_any event_id (r ∷ rows) h = elim (Bool-cases (is_event event_id r)) [
    | inl e ↦ let bad : true ≡ false = rw e at h in cc
    | inr e ↦ (
      λ same. let hit = (same_text_iff r.tick.event_id event_id).1 same in cc,
      not_any event_id rows (rw e at h),
    )
  ]

  -- No event id is twice in the table: the keys of the deduplication may be gone, the table's are not.
  pub create_many-Distinct :
      (terminal : String) (ts : List (TickDto W)) (rows : List (TickRow W))
      → Distinct (map event_id_of rows)
      → Distinct (map event_id_of (create_many terminal ts rows))
  unfolding create_many
  create_many-Distinct terminal [] rows d = d
  create_many-Distinct terminal (t ∷ ts) rows d =
      elim (Bool-cases (any (is_event t.event_id) rows)) [
        | inl e ↦ rw e (create_many-Distinct terminal ts rows d)
        | inr e ↦ rw e (
            create_many-Distinct terminal ts (rows ++ record { terminal = terminal; tick = t } ∷ [])
              (rw (map-append event_id_of rows (record { terminal = terminal; tick = t } ∷ []))
                (Distinct-append (map event_id_of rows) t.event_id d (not_any t.event_id rows e))))
      ]

  any-append_left :
      (p : TickRow W → Bool) (xs ys : List (TickRow W)) → any p xs ≡ true → any p (xs ++ ys) ≡ true
  any-append_left p [] ys h = cc
  any-append_left p (x ∷ xs) ys h = elim (Bool-cases (p x)) [
    | inl e ↦ rw e refl
    | inr e ↦ rw e (any-append_left p xs ys (rw e at h))
  ]

  any-append_right :
      (p : TickRow W → Bool) (xs ys : List (TickRow W)) → any p ys ≡ true → any p (xs ++ ys) ≡ true
  any-append_right p [] ys h = h
  any-append_right p (x ∷ xs) ys h = elim (Bool-cases (p x)) [
    | inl e ↦ rw e refl
    | inr e ↦ rw e (any-append_right p xs ys h)
  ]

  -- What is in the table stays there.
  create_many-keeps :
      (event_id terminal : String) (ts : List (TickDto W)) (rows : List (TickRow W))
      → any (is_event event_id) rows ≡ true
      → any (is_event event_id) (create_many terminal ts rows) ≡ true
  unfolding create_many
  create_many-keeps event_id terminal [] rows h = h
  create_many-keeps event_id terminal (t ∷ ts) rows h =
      elim (Bool-cases (any (is_event t.event_id) rows)) [
        | inl e ↦ rw e (create_many-keeps event_id terminal ts rows h)
        | inr e ↦ rw e (
            create_many-keeps event_id terminal ts
              (rows ++ record { terminal = terminal; tick = t } ∷ [])
              (any-append_left (is_event event_id) rows _ h))
      ]

  pub create_many-stores :
      (terminal : String) (ts : List (TickDto W)) (rows : List (TickRow W))
      → All (λ t. any (is_event t.event_id) (create_many terminal ts rows) ≡ true) ts
  unfolding create_many
  create_many-stores terminal [] rows = tt
  create_many-stores terminal (t ∷ ts) rows =
      let row : TickRow W = record { terminal = terminal; tick = t } in
      let next = if any (is_event t.event_id) rows then rows else rows ++ row ∷ [] in
      let here : any (is_event t.event_id) next ≡ true =
        elim (Bool-cases (any (is_event t.event_id) rows)) [
          | inl e ↦ rw e e
          | inr e ↦ rw e (
              any-append_right (is_event t.event_id) rows (row ∷ [])
                (rw (same_text_refl t.event_id) refl))
        ] in
      (create_many-keeps t.event_id terminal ts next here, create_many-stores terminal ts next)
