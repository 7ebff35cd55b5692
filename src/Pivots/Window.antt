-- ===== src/Pivots/Window.antt =====
-- What the flags of the inner loop of `findPivots` say about the window.
use mmxm.Prelude.{
  ℕ, ◌≡◌, ◌≢◌, refl, Bool, true, false, not, ◌&&◌, some, List, [], ◌∷◌, arith, ◌==◌, ==_iff,
  if◌then◌else◌, Bool-cases, Option-cases, inl, inr, get_elem?, All,
}
use mmxm.Pivots.{scan}

module _ {A : Type 0} (cs : List A) (i : ℕ) where
  -- The candle at `j`, unless `j` is `i`, fails the test.
  abbrev pub Clear : (A → Bool) → ℕ → Type 0
  Clear test j = j ≢ i → (o : A) → get_elem? cs j ≡ some o → test o ≡ false

module _ {A : Type 0} (p q : A → Bool) (cs : List A) (i : ℕ) where
  pub scan-Clear_high :
      (js : List ℕ) (h l : Bool)
      → (scan p q cs i js h l).0 ≡ true
      → (h ≡ true) × All (Clear cs i p) js
  unfolding scan
  scan-Clear_high [] h l e = (e, tt)
  scan-Clear_high (j ∷ js) h l e = elim (Bool-cases (j == i)) [
    | inl same ↦
        let (kept, clear) = scan-Clear_high js h l (rw (same, scan) at e) in
        (kept, ((λ ne. absurd (ne ((==_iff j i).0 same))), clear))
    | inr other ↦ elim (Option-cases (get_elem? cs j)) [
      | inl missing ↦
          let (kept, clear) = scan-Clear_high js h l (rw (other, missing, scan) at e) in
          (kept, ((λ _ o found. cc), clear))
      | inr (o, found) ↦
          let high' = if p o then false else h in
          let low' = if q o then false else l in
          let now = rw (other, found, scan) at e in
          elim (Bool-cases (not high' && not low')) [
            | inl stop ↦ absurd (ground arith)
            | inr go ↦
                let (kept, clear) = scan-Clear_high js high' low' (rw (go, scan) at now) in
                (ground arith, ((λ _ o' same. ground arith), clear))
          ]
    ]
  ]

  pub scan_high_of_Clear :
      (js : List ℕ) (l : Bool) → All (Clear cs i p) js → (scan p q cs i js true l).0 ≡ true
  unfolding scan
  scan_high_of_Clear [] l c = refl
  scan_high_of_Clear (j ∷ js) l (here, later) = elim (Bool-cases (j == i)) [
    | inl same ↦ rw (same, scan) (scan_high_of_Clear js l later)
    | inr other ↦ elim (Option-cases (get_elem? cs j)) [
      | inl missing ↦ rw (other, missing, scan) (scan_high_of_Clear js l later)
      | inr (o, found) ↦
          let passes : p o ≡ false = here (λ e. cc ((==_iff j i).1 e)) o found in
          let high' = if p o then false else true in
          let low' = if q o then false else l in
          let go : (not high' && not low') ≡ false = ground arith in
          let kept : high' ≡ true = ground arith in
          rw (other, found, scan) (rw (go, scan) (rw kept (scan_high_of_Clear js low' later)))
    ]
  ]

and_comm : (a b : Bool) → (a && b) ≡ (b && a)
and_comm a b = ground arith

module _ {A : Type 0} (cs : List A) (i : ℕ) where
  -- The two flags are treated alike.
  pub scan_swap :
      (p q : A → Bool) (js : List ℕ) (h l : Bool)
      → (scan p q cs i js h l).1 ≡ (scan q p cs i js l h).0
  unfolding scan
  scan_swap p q [] h l = refl
  scan_swap p q (j ∷ js) h l = elim (Bool-cases (j == i)) [
    | inl same ↦ rw (same, scan) (scan_swap p q js h l)
    | inr other ↦ elim (Option-cases (get_elem? cs j)) [
      | inl missing ↦ rw (other, missing, scan) (scan_swap p q js h l)
      | inr (o, found) ↦
          let high' = if p o then false else h in
          let low' = if q o then false else l in
          rw (other, found, scan)
            (elim (Bool-cases (not high' && not low')) [
              | inl stop ↦ rw (stop, and_comm (not low') (not high'), stop, scan) (ground arith)
              | inr go ↦
                  rw (go, and_comm (not low') (not high'), go, scan) (scan_swap p q js high' low')
            ])
    ]
  ]
