-- ===== src/Gate/OneOpen.antt =====
-- apps/worker/src/analyzer.ts: when a signal is stored, and how many are open then.
use mmxm.Prelude.{
  ℕ, ◌≤◌, ◌≡◌, refl, ◌↔◌, ◌⊎◌, Bool, true, false, ◌&&◌, List, [], ◌∷◌, ◌++◌, if◌then◌else◌, filter,
  find, length, Bool-cases, inl, inr, arith,
}
use mmxm.Prelude.Loops.{length-append}
use mmxm.Prelude.Filters.{filter-append}
use mmxm.Double.{Double}
use mmxm.Types.{Direction, long, short}
use mmxm.Backtest.{same_direction}
use mmxm.Gate.{
  Candidate, Stored, Verdict, duplicate, throttled, same_direction_open, opposite_open, no_version,
  created, opposite, open_in, newest, is_throttled, is_hedge, exists_one, is_duplicate, admit,
  stored_of, store, persist,
}

-- At most one signal is open in each direction.
abbrev pub IsSingle : {W : Type 0} → List (Stored W) → Type 0
IsSingle rows = (dir : Direction) → length (filter (open_in dir) rows) ≤ 1

no_newest_nil : (W : Type 0) → exists_one (newest {W = W} []) ≡ false
unfolding newest
no_newest_nil W = refl

module _ {W : Type 0} where
  no_newest : (rows : List (Stored W)) → exists_one (newest rows) ≡ false → rows ≡ []
  unfolding newest
  no_newest [] e = refl
  no_newest (a ∷ rows) e = cc

  filter_one : (p : Stored W → Bool) (x : Stored W) → length (filter p (x ∷ [])) ≤ 1
  filter_one p x = elim (Bool-cases (p x)) [
    | inl e ↦ rw e (omega arith)
    | inr e ↦ rw e (omega arith)
  ]

filter_nil_cons :
    {A : Type 0} (p : A → Bool) (x : A) (xs : List A)
    → filter p (x ∷ xs) ≡ []
    → (p x ≡ false) × (filter p xs ≡ [])
filter_nil_cons p x xs e = elim (Bool-cases (p x)) [
  | inl k ↦ let bad : x ∷ filter p xs ≡ [] = rw k at e in cc
  | inr k ↦ (k, rw k at e)
]

-- The chain of refusals ends in a signal just where no test holds and there is a version.
verdict_created :
    (dup late same hedge version : Bool)
    → ((if dup
          then duplicate
          else if late
          then throttled
          else if same
          then same_direction_open
          else if hedge
          then opposite_open
          else if version
          then created
          else no_version)
        ≡ created)
      ↔ ((dup ≡ false) × (late ≡ false) × (same ≡ false) × (hedge ≡ false) × (version ≡ true))
verdict_created true late same hedge version = (λ e. cc, λ (a, b, c, e, f). cc)
verdict_created false true same hedge version = (λ e. cc, λ (a, b, c, e, f). cc)
verdict_created false false true hedge version = (λ e. cc, λ (a, b, c, e, f). cc)
verdict_created false false false true version = (λ e. cc, λ (a, b, c, e, f). cc)
verdict_created false false false false false = (λ e. cc, λ (a, b, c, e, f). cc)
verdict_created false false false false true = (λ e. (refl, refl, refl, refl, refl), λ h. refl)

module _ {W : Type 0} ⦃d : Double W⦄ where
  not_duplicate :
      (sig : Candidate W) (s : Stored W)
      → open_in sig.direction s ≡ false
      → is_duplicate sig s ≡ false
  unfolding is_duplicate
  not_duplicate sig s e = rw e refl

  -- A duplicate is an open signal of the same direction.
  no_duplicate :
      (sig : Candidate W) (rows : List (Stored W))
      → filter (open_in sig.direction) rows ≡ []
      → exists_one (find (is_duplicate sig) rows) ≡ false
  no_duplicate sig [] e = refl
  no_duplicate sig (s ∷ rows) e =
      let (closed, rest) = filter_nil_cons (open_in sig.direction) s rows e in
      rw (not_duplicate sig s closed) (no_duplicate sig rows rest)

  added :
      (dir : Direction) (now : ℕ) (sig : Candidate W)
      → (dir ≡ sig.direction) ⊎ (filter (open_in dir) (stored_of now sig ∷ []) ≡ [])
  unfolding stored_of
  added dir now sig = directions dir sig.direction
    where
      directions :
          (a b : Direction)
          → (a ≡ b) ⊎ ((if same_direction a b && true then stored_of now sig ∷ [] else []) ≡ [])
      directions long long = inl refl
      directions short short = inl refl
      directions long short = inr refl
      directions short long = inr refl

  pub append-IsSingle :
      (now : ℕ) (sig : Candidate W) (rows : List (Stored W))
      → IsSingle rows
      → filter (open_in sig.direction) rows ≡ []
      → IsSingle (rows ++ stored_of now sig ∷ [])
  append-IsSingle now sig rows h free = λ dir.
      let new = stored_of now sig ∷ [] in
      rw (filter-append (open_in dir) rows new) (elim (added dir now sig) [
        | inl e ↦ rw (e, free) (filter_one (open_in sig.direction) (stored_of now sig))
        | inr e ↦ rw e (omega (arith, length-append (filter (open_in dir) rows) [], h dir))
      ])

  store-IsSingle :
      (v : Verdict) (now : ℕ) (sig : Candidate W) (rows : List (Stored W))
      → IsSingle rows
      → (v ≡ created → filter (open_in sig.direction) rows ≡ [])
      → IsSingle (store v now sig rows)
  unfolding store
  store-IsSingle created now sig rows h free = append-IsSingle now sig rows h (free refl)
  store-IsSingle v now sig rows h free = h

  -- A signal is stored just where no signal is open in its direction, the cooldown does not hold it
  -- back, it does not hedge, and there is an active version of the strategy. The search for
  -- duplicates, which comes first, never changes that.
  pub admit_created :
      (now : ℕ) (has_version : Bool) (sig : Candidate W) (rows : List (Stored W))
      → (admit now has_version sig rows ≡ created) ↔ (
          (filter (open_in sig.direction) rows ≡ [])
          × (is_throttled now sig.confidence_score
                (newest (filter (λ s. same_direction sig.direction s.direction) rows))
              ≡ false)
          × (is_hedge sig.confidence_score (newest (filter (open_in (opposite sig.direction)) rows))
              ≡ false)
          × (has_version ≡ true))
  unfolding admit
  admit_created now has_version sig rows =
      let same = filter (λ s. same_direction sig.direction s.direction) rows in
      let chain =
        verdict_created (exists_one (find (is_duplicate sig) rows))
          (is_throttled now sig.confidence_score (newest same))
          (exists_one (newest (filter (open_in sig.direction) rows)))
          (is_hedge sig.confidence_score (newest (filter (open_in (opposite sig.direction)) rows)))
          has_version in
      (
        (λ e.
            let (_, late, single, hedge, version) = chain.0 e in
            (no_newest _ single, late, hedge, version)),
        λ (none_open, late, hedge, version).
            chain.1 (
              no_duplicate sig rows none_open,
              late,
              rw none_open (no_newest_nil _),
              hedge,
              version,
            ),
      )

  -- Storing a signal keeps it that at most one is open in each direction.
  pub persist-IsSingle :
      (now : ℕ) (has_version : Bool) (sig : Candidate W) (rows : List (Stored W))
      → IsSingle rows
      → IsSingle (persist now has_version sig rows)
  unfolding persist
  persist-IsSingle now has_version sig rows h =
      store-IsSingle _ now sig rows h λ e. ((admit_created now has_version sig rows).0 e).0
