-- ===== src/KeyStore/Timed.antt =====
-- A store of keys that runs: the keys with the times at which they end.
use mmxm.Prelude.{
  ℕ, ◌+◌, ◌*◌, ◌≡◌, ◌≢◌, refl, Bool, true, false, ◌&&◌, List, [], ◌∷◌, String, ltb, same_text,
  same_text_iff, same_text_refl, same_text_ne, sym, ◌∙◌, if◌then◌else◌, any, Bool-cases, inl, inr,
}
use mmxm.KeyStore.{KeyStore, IsKeyStore}

abbrev pub TimedKeys : Type 0
TimedKeys = List (String × ℕ)

abbrev holds : String → ℕ → TimedKeys → Bool
holds key t s = any (λ e. same_text e.0 key && ltb t e.1) s

abbrev erase : String → TimedKeys → TimedKeys
erase key [] = []
erase key (e ∷ s) = let rest = erase key s in if same_text e.0 key then rest else e ∷ rest

abbrev put : Bool → String → ℕ → TimedKeys → Bool × TimedKeys
put true key end s = (false, s)
put false key end s = (true, (key, end) ∷ erase key s)

instance abbrev pub timed_keys : KeyStore TimedKeys
timed_keys = record {
  set_nx = λ key now ttl s. put (holds key now s) key (now + ttl * 1000) s;
  held = holds;
}

holds-erase : (key : String) (t : ℕ) (s : TimedKeys) → holds key t (erase key s) ≡ false
holds-erase key t [] = refl
holds-erase key t (e ∷ s) = elim (Bool-cases (same_text e.0 key)) [
  | inl h ↦ rw h (holds-erase key t s)
  | inr h ↦ rw (h, h) (holds-erase key t s)
]

holds-erase_ne :
    (key other : String) (t : ℕ) (s : TimedKeys)
    → other ≢ key
    → holds other t (erase key s) ≡ holds other t s
holds-erase_ne key other t [] ne = refl
holds-erase_ne key other t (e ∷ s) ne = elim (Bool-cases (same_text e.0 key)) [
  | inl h ↦
      let same = (same_text_iff e.0 key).0 h in
      let differs : same_text e.0 other ≡ false = same_text_ne e.0 other (λ p. ne (sym p ∙ same)) in
      rw (h, differs) (holds-erase_ne key other t s ne)
  | inr h ↦ rw (h, holds-erase_ne key other t s ne) refl
]

holds-put :
    (key : String) (end : ℕ) (s : TimedKeys) (t : ℕ)
    → holds key t ((key, end) ∷ erase key s) ≡ ltb t end
holds-put key end s t = elim (Bool-cases (ltb t end)) [
  | inl h ↦ rw (same_text_refl key, h) refl
  | inr h ↦ rw (same_text_refl key, h, holds-erase key t s) refl
]

pub TimedKeys-IsKeyStore : IsKeyStore TimedKeys
TimedKeys-IsKeyStore = record {
  answer = λ key now ttl s. elim (Bool-cases (holds key now s)) [
    | inl h ↦ rw h refl
    | inr h ↦ rw h refl
  ];
  held_set = λ key now ttl s t free later. rw free (holds-put key (now + ttl * 1000) s t);
  kept = λ key now ttl s h. rw h refl;
  held_other = λ key other now ttl s t ne. elim (Bool-cases (holds key now s)) [
    | inl h ↦ rw h refl
    | inr h ↦ rw (h, same_text_ne key other (λ p. ne (sym p))) (holds-erase_ne key other t s ne)
  ];
}
