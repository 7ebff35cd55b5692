-- ===== src/Guard/Authentic.antt =====
-- apps/api/src/modules/mql5-gateway/mql5-signature.guard.ts: which requests are let in.
use mmxm.Prelude.{
  ℕ, ◌≡◌, refl, sym, ◌∙◌, ◌↔◌, Bool, true, false, not, Option, none, some, List, same_text,
  same_text_iff, Bool-cases, inl, inr,
}
use mmxm.Double.{Double}
use mmxm.KeyStore.{KeyStore, IsKeyStore}
use mmxm.Guard.{
  let_in, refused, bad_signature, bad_api_key, stale_timestamp, AuthContext, Request, Credentials,
  credentials, GuardSettings, Terminal, nonce_key, signed_text, known, enter, is_timely, verify,
  after_nonce, check, can_activate,
}

not-true : (b : Bool) → not b ≡ true → b ≡ false
not-true true e = cc
not-true false e = refl

module _ {W S : Type 0} ⦃d : Double W⦄ ⦃k : KeyStore S⦄ where
  -- What a request that is let in has shown.
  pub record IsAuthentic (g : GuardSettings W) (terminals : List Terminal) (r : Request) (now : ℕ)
      (s : S) (ctx : AuthContext) : Type 0 where
    pub creds : Credentials
    pub complete : credentials r ≡ some creds
    pub api_key : creds.api_key ≡ g.api_key
    pub timely : is_timely g now creds ≡ true
    pub fresh : k.held (nonce_key creds) now s ≡ false
    pub signed : creds.signature ≡ g.hmac g.api_secret (signed_text r creds)
    pub place : enter r creds (known terminals creds.terminal_id) ≡ let_in ctx

  module _ ⦃law : IsKeyStore S⦄ (g : GuardSettings W) (terminals : List Terminal) (r : Request)
      (now : ℕ) (s : S) (ctx : AuthContext) where
    verify-let_in :
        (c : Credentials)
        → verify g terminals r c ≡ let_in ctx
        → (c.signature ≡ g.hmac g.api_secret (signed_text r c))
          × (enter r c (known terminals c.terminal_id) ≡ let_in ctx)
    unfolding verify
    verify-let_in c e =
        elim (Bool-cases (same_text c.signature (g.hmac g.api_secret (signed_text r c)))) [
          | inl h ↦
              ((same_text_iff c.signature (g.hmac g.api_secret (signed_text r c))).0 h, rw h at e)
          | inr h ↦ let bad : refused bad_signature ≡ let_in ctx = rw h at e in cc
        ]

    after_nonce-let_in :
        (c : Credentials) (p : Bool × S)
        → (after_nonce g terminals r c p).0 ≡ let_in ctx
        → (p.0 ≡ true) × (verify g terminals r c ≡ let_in ctx)
    unfolding after_nonce
    after_nonce-let_in c (true, t) e = (refl, e)
    after_nonce-let_in c (false, t) e = cc

    check-let_in :
        (o : Option Credentials)
        → credentials r ≡ o
        → (check g terminals r now s o).0 ≡ let_in ctx
        → IsAuthentic g terminals r now s ctx
    unfolding check
    check-let_in none found e = cc
    check-let_in (some c) found e = elim (Bool-cases (same_text c.api_key g.api_key)) [
      | inr h ↦ let bad : refused bad_api_key ≡ let_in ctx = rw h at e in cc
      | inl h ↦ elim (Bool-cases (is_timely g now c)) [
        | inr i ↦ let bad : refused stale_timestamp ≡ let_in ctx = rw (h, i) at e in cc
        | inl i ↦
            let (ok, verified) =
              after_nonce-let_in c (k.set_nx (nonce_key c) now g.nonce_ttl_seconds s)
                (rw (h, i) at e) in
            let (signed, place) = verify-let_in c verified in
            record {
              creds = c;
              complete = found;
              api_key = (same_text_iff c.api_key g.api_key).0 h;
              timely = i;
              fresh = not-true _ (sym (law.answer (nonce_key c) now g.nonce_ttl_seconds s) ∙ ok);
              signed = signed;
              place = place;
            }
      ]
    ]

    check-of_IsAuthentic :
        (a : IsAuthentic g terminals r now s ctx)
        → (check g terminals r now s (some a.creds)).0 ≡ let_in ctx
    unfolding check after_nonce verify
    check-of_IsAuthentic a =
        let c = a.creds in
        let key = (same_text_iff c.api_key g.api_key).1 a.api_key in
        let signed =
          (same_text_iff c.signature (g.hmac g.api_secret (signed_text r c))).1 a.signed in
        let first : (k.set_nx (nonce_key c) now g.nonce_ttl_seconds s).0 ≡ true =
          rw (law.answer (nonce_key c) now g.nonce_ttl_seconds s, a.fresh) refl in
        rw (key, a.timely, first, signed) a.place

    -- A request is let in just when all five headers are there, the key is the configured one, the
    -- timestamp is a number within the skew, the nonce is not held for the terminal, the signature is
    -- the HMAC of timestamp, nonce and body, and the terminal is known or the URL names the handshake.
    pub can_activate-let_in :
        ((can_activate g terminals r now s).0 ≡ let_in ctx) ↔ IsAuthentic g terminals r now s ctx
    unfolding can_activate
    can_activate-let_in =
        (check-let_in (credentials r) refl, λ a. rw a.complete (check-of_IsAuthentic a))
