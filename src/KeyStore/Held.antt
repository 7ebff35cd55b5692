-- ===== src/KeyStore/Held.antt =====
-- Keys that stay: no other call takes a key away before its time to live has passed.
use mmxm.Prelude.{
  ℕ, ◌+◌, ◌*◌, ◌≤◌, ◌<◌, ◌≡◌, sym, ◌∙◌, true, not, String, same_text, same_text_iff, Bool-cases,
  inl, inr, lt→ltb,
}
use mmxm.KeyStore.{KeyStore, IsKeyStore}

module _ {S : Type 0} ⦃k : KeyStore S⦄ where
  -- The key is there at every time of the span.
  abbrev pub IsHeld : String → ℕ → ℕ → S → Type 0
  IsHeld key from until s = (t : ℕ) → from ≤ t → t < until → k.held key t s ≡ true

  pub set_nx-IsHeld :
      ⦃law : IsKeyStore S⦄ (key other : String) (from until now ttl : ℕ) (s : S)
      → from ≤ now
      → now < until
      → IsHeld key from until s
      → IsHeld key from until (k.set_nx other now ttl s).1
  set_nx-IsHeld ⦃law⦄ key other from until now ttl s low high h = λ t l u.
      elim (Bool-cases (same_text other key)) [
        | inl e ↦
            let same = (same_text_iff other key).0 e in
            rw (law.kept other now ttl s (rw same (h now low high))) (h t l u)
        | inr e ↦
            rw
              (law.held_other other key now ttl s t (λ p. cc ((same_text_iff other key).1 (sym p))))
              (h t l u)
      ]

  -- A key that was not there is there from now on, for its time to live.
  pub set_nx_fresh :
      ⦃law : IsKeyStore S⦄ (key : String) (now ttl : ℕ) (s : S)
      → (k.set_nx key now ttl s).0 ≡ true
      → IsHeld key now (now + ttl * 1000) (k.set_nx key now ttl s).1
  set_nx_fresh ⦃law⦄ key now ttl s fresh = λ t low high. elim (Bool-cases (k.held key now s)) [
    | inl e ↦ let bad : not true ≡ true = rw e at (sym (law.answer key now ttl s) ∙ fresh) in cc
    | inr e ↦ rw (law.held_set key now ttl s t e low) (lt→ltb t (now + ttl * 1000) high)
  ]
