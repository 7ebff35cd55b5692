-- ===== src/Guard/Replay.antt =====
-- apps/api/src/modules/mql5-gateway/mql5-signature.guard.ts: nonces and requests that are sent again.
use mmxm.Prelude.{
  ℕ, ◌+◌, ◌*◌, ◌≤◌, ◌<◌, ◌≡◌, ◌≢◌, refl, sym, ◌∙◌, ap, Bool, true, false, Option, none, some, List,
  [], ◌∷◌, String, same_text, same_text_iff, Bool-cases, inl, inr, ◌⊎◌, All, lt→ltb, le→ltb-false,
  arith,
}
use mathlib.Core.Option.{some-injective}
use mmxm.Double.{Double}
use mmxm.KeyStore.{KeyStore, IsKeyStore}
use mmxm.KeyStore.Held.{IsHeld, set_nx-IsHeld}
use mmxm.Guard.{
  let_in, Request, Credentials, credentials, GuardSettings, Terminal, AuthContext, nonce_key,
  is_timely, after_nonce, check, can_activate,
}
use mmxm.Guard.Authentic.{IsAuthentic, can_activate-let_in}

not_both : (b : Bool) → b ≡ true → ¬ (b ≡ false)
not_both b e f = cc

module _ {W S : Type 0} ⦃d : Double W⦄ ⦃k : KeyStore S⦄ where
  -- Requests that come one after the other, with the time of each.
  abbrev pub run_calls : GuardSettings W → List Terminal → List (Request × ℕ) → S → S
  run_calls g terminals [] s = s
  run_calls g terminals ((r, now) ∷ calls) s =
      run_calls g terminals calls (can_activate g terminals r now s).1

  module _ ⦃law : IsKeyStore S⦄ (g : GuardSettings W) (terminals : List Terminal) where
    -- A call leaves the keys as they are, or sets the key of its nonce.
    check-store :
        (r : Request) (now : ℕ) (s : S) (o : Option Credentials)
        → ((check g terminals r now s o).1 ≡ s)
          ⊎ ((key : String) × ((check g terminals r now s o).1
                ≡ (k.set_nx key now g.nonce_ttl_seconds s).1))
    unfolding check after_nonce
    check-store r now s none = inl refl
    check-store r now s (some c) = elim (Bool-cases (same_text c.api_key g.api_key)) [
      | inr h ↦ inl (rw h refl)
      | inl h ↦ elim (Bool-cases (is_timely g now c)) [
        | inr i ↦ inl (rw (h, i) refl)
        | inl i ↦ inr (nonce_key c, rw (h, i) refl)
      ]
    ]

    can_activate-IsHeld :
        (key : String) (from until : ℕ) (r : Request) (now : ℕ) (s : S)
        → from ≤ now
        → now < until
        → IsHeld key from until s
        → IsHeld key from until (can_activate g terminals r now s).1
    unfolding can_activate
    can_activate-IsHeld key from until r now s low high h =
        elim (check-store r now s (credentials r)) [
          | inl e ↦ rw e h
          | inr (other, e) ↦
              rw e (set_nx-IsHeld key other from until now g.nonce_ttl_seconds s low high h)
        ]

    run_calls-IsHeld :
        (key : String) (from until : ℕ) (calls : List (Request × ℕ)) (s : S)
        → All (λ c. (from ≤ c.1) × (c.1 < until)) calls
        → IsHeld key from until s
        → IsHeld key from until (run_calls g terminals calls s)
    run_calls-IsHeld key from until [] s times h = h
    run_calls-IsHeld key from until ((r, now) ∷ calls) s ((low, high), times) h =
        run_calls-IsHeld key from until calls (can_activate g terminals r now s).1 times
          (can_activate-IsHeld key from until r now s low high h)

    -- What the store of keys is after a request that is let in.
    store_of_IsAuthentic :
        (r : Request) (now : ℕ) (s : S) (ctx : AuthContext)
        → (a : IsAuthentic g terminals r now s ctx)
        → (can_activate g terminals r now s).1
          ≡ (k.set_nx (nonce_key a.creds) now g.nonce_ttl_seconds s).1
    unfolding can_activate check after_nonce
    store_of_IsAuthentic r now s ctx a =
        let key = (same_text_iff a.creds.api_key g.api_key).1 a.api_key in
        rw (a.complete, key, a.timely) refl

    IsHeld-after :
        (r : Request) (now : ℕ) (s : S) (ctx : AuthContext)
        → (a : IsAuthentic g terminals r now s ctx) → (key : String) → nonce_key a.creds ≡ key
        → IsHeld key now (now + g.nonce_ttl_seconds * 1000) (can_activate g terminals r now s).1
    IsHeld-after r now s ctx a key e = λ t l u.
        rw
          (
            store_of_IsAuthentic r now s ctx a,
            ← e,
            law.held_set (nonce_key a.creds) now g.nonce_ttl_seconds s t a.fresh l,
          )
          (lt→ltb t (now + g.nonce_ttl_seconds * 1000) u)

    -- After a request that is let in, and after any further requests within its nonce's time to live, no
    -- request with the same nonce key, made of the terminal id and the nonce, is let in within that time.
    pub no_replay :
        (r again : Request) (now later : ℕ) (s : S) (ctx ctx' : AuthContext)
        (calls : List (Request × ℕ))
        → (can_activate g terminals r now s).0 ≡ let_in ctx
        → (c c' : Credentials) → credentials r ≡ some c
        → credentials again ≡ some c'
        → nonce_key c' ≡ nonce_key c
        → All (λ call. (now ≤ call.1) × (call.1 < now + g.nonce_ttl_seconds * 1000)) calls
        → now ≤ later
        → later < now + g.nonce_ttl_seconds * 1000
        → (can_activate g terminals again later
            (run_calls g terminals calls (can_activate g terminals r now s).1)).0
          ≢ let_in ctx'
    no_replay r again now later s ctx ctx' calls entered c c' found found' same times low high
          again_in =
        let a = (can_activate-let_in g terminals r now s ctx).0 entered in
        let b = (can_activate-let_in g terminals again later _ ctx').0 again_in in
        let until = now + g.nonce_ttl_seconds * 1000 in
        let key : nonce_key a.creds ≡ nonce_key c =
          ap nonce_key (some-injective a.creds c (sym a.complete ∙ found)) in
        let key' : nonce_key b.creds ≡ nonce_key c =
          ap nonce_key (some-injective b.creds c' (sym b.complete ∙ found')) ∙ same in
        let first : IsHeld (nonce_key c) now until (can_activate g terminals r now s).1 =
          λ t l u. IsHeld-after r now s ctx a (nonce_key c) key t l u in
        let held = run_calls-IsHeld (nonce_key c) now until calls _ times first later low high in
        not_both _ held (rw key' at b.fresh)

    -- A request that is let in is let in again once the time to live has passed, while its timestamp
    -- is still within the skew: the nonce protects for that time only.
    pub replay-let_in :
        (r : Request) (now later : ℕ) (s : S) (ctx : AuthContext)
        → (can_activate g terminals r now s).0 ≡ let_in ctx
        → (c : Credentials) → credentials r ≡ some c
        → is_timely g later c ≡ true
        → now + g.nonce_ttl_seconds * 1000 ≤ later
        → (can_activate g terminals r later (can_activate g terminals r now s).1).0 ≡ let_in ctx
    replay-let_in r now later s ctx entered c found timely passed =
        let a = (can_activate-let_in g terminals r now s ctx).0 entered in
        let key : a.creds ≡ c = some-injective a.creds c (sym a.complete ∙ found) in
        let gone : k.held (nonce_key a.creds) later (can_activate g terminals r now s).1 ≡ false =
          rw
            (
              store_of_IsAuthentic r now s ctx a,
              law.held_set (nonce_key a.creds) now g.nonce_ttl_seconds s later a.fresh
                  (omega arith),
            )
            (le→ltb-false later (now + g.nonce_ttl_seconds * 1000) passed) in
        (can_activate-let_in g terminals r later _ ctx).1 (record {
          creds = a.creds;
          complete = a.complete;
          api_key = a.api_key;
          timely = rw key timely;
          fresh = gone;
          signed = a.signed;
          place = a.place;
        })
