-- ===== src/Bot/Table.antt =====
-- apps/worker/src/telegram-bot.ts: what the table of subscribers holds after a statement.
use mmxm.Prelude.{
  ◌≡◌, ◌≢◌, refl, ◌∙◌, ap, inl, inr, Bool, true, false, not, ◌||◌, List, [], ◌∷◌, ◌++◌, String,
  same_text, same_text_iff, if◌then◌else◌, any, All, Distinct, Bool-cases, or_true,
}
use mmxm.Prelude.Loops.{All-filter, Distinct-append}
use mmxm.Bot.{is_subscribed, subscribe, unsubscribe}

any-append :
    {A : Type 0} (p : A → Bool) (xs : List A) (y : A) → any p (xs ++ y ∷ []) ≡ any p xs || p y
any-append p [] y = elim (Bool-cases (p y)) [ inl e ↦ rw e refl | inr e ↦ rw e refl ]
any-append p (x ∷ xs) y = elim (Bool-cases (p x)) [
  | inl e ↦ rw e refl
  | inr e ↦ rw e (any-append p xs y)
]

or_false : (b : Bool) → b || false ≡ b
or_false true = refl
or_false false = refl

pub subscribe-member :
    (cid other : String) (xs : List String)
    → is_subscribed (subscribe cid xs) other
      ≡ (if same_text cid other then true else is_subscribed xs other)
unfolding is_subscribed subscribe
subscribe-member cid other xs = elim (Bool-cases (same_text cid other)) [
  | inl f ↦
      let same : cid ≡ other = (same_text_iff cid other).0 f in
      elim (Bool-cases (any (λ s. same_text s cid) xs)) [
        | inr e ↦ rw (e, any-append (λ s. same_text s other) xs cid, f) (or_true _)
        | inl e ↦ rw (e, f) (rw same at e)
      ]
  | inr f ↦ elim (Bool-cases (any (λ s. same_text s cid) xs)) [
    | inr e ↦ rw (e, any-append (λ s. same_text s other) xs cid, f) (or_false _)
    | inl e ↦ rw (e, f) refl
  ]
]

pub unsubscribe-member :
    (cid other : String) (xs : List String)
    → is_subscribed (unsubscribe cid xs) other
      ≡ (if same_text cid other then false else is_subscribed xs other)
unfolding is_subscribed unsubscribe
unsubscribe-member cid other [] = elim (Bool-cases (same_text cid other)) [
  | inl e ↦ rw e refl
  | inr e ↦ rw e refl
]
unsubscribe-member cid other (x ∷ xs) = elim (Bool-cases (same_text x cid)) [
  | inl k ↦
      let same : x ≡ cid = (same_text_iff x cid).0 k in
      elim (Bool-cases (same_text cid other)) [
        | inl f ↦ rw (k, f) (unsubscribe-member cid other xs ∙ rw f refl)
        | inr f ↦ rw (k, f, same, f) (unsubscribe-member cid other xs ∙ rw f refl)
      ]
  | inr k ↦ elim (Bool-cases (same_text cid other)) [
    | inl f ↦
        let same : cid ≡ other = (same_text_iff cid other).0 f in
        let apart : same_text x other ≡ false = rw same at k in
        rw (k, f, apart) (unsubscribe-member cid other xs ∙ rw f refl)
    | inr f ↦
        rw (k, f) (ap (λ b. same_text x other || b) (unsubscribe-member cid other xs ∙ rw f refl))
  ]
]

pub subscribe-Distinct :
    (cid : String) (xs : List String) → Distinct xs → Distinct (subscribe cid xs)
unfolding is_subscribed subscribe
subscribe-Distinct cid xs d = elim (Bool-cases (any (λ s. same_text s cid) xs)) [
  | inl e ↦ rw e d
  | inr e ↦ rw e (Distinct-append xs cid d (others cid xs e))
]
  where
    others :
        (cid : String) (xs : List String)
        → any (λ s. same_text s cid) xs ≡ false
        → All (λ x. x ≢ cid) xs
    others cid [] h = tt
    others cid (x ∷ xs) h = elim (Bool-cases (same_text x cid)) [
      | inl e ↦ let bad : true ≡ false = rw e at h in cc
      | inr e ↦ ((λ same. let hit = (same_text_iff x cid).1 same in cc), others cid xs (rw e at h))
    ]

pub unsubscribe-Distinct :
    (cid : String) (xs : List String) → Distinct xs → Distinct (unsubscribe cid xs)
unfolding unsubscribe
unsubscribe-Distinct cid [] d = d
unsubscribe-Distinct cid (x ∷ xs) (other, d) = elim (Bool-cases (same_text x cid)) [
  | inl e ↦ rw e (unsubscribe-Distinct cid xs d)
  | inr e ↦
      rw e (
        All-filter (λ y. x ≢ y) (λ s. not (same_text s cid)) xs other,
        unsubscribe-Distinct cid xs d,
      )
]
