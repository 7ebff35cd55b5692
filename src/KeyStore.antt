-- ===== src/KeyStore.antt =====
-- What the code uses of Redis: `SET key value EX seconds NX`, which sets a key that is not there, with
-- a time to live, and says whether it did. It is a parameter of the components that use it.
pub mod Held
pub mod Timed
use mmxm.Prelude.{ℕ, ◌+◌, ◌*◌, ◌≤◌, ◌≡◌, ◌≢◌, Bool, true, false, not, String, ltb}

pub record KeyStore (S : Type 0) : Type 0 where
  -- The key, the time in milliseconds and the seconds to live.
  pub set_nx : String → ℕ → ℕ → S → Bool × S
  -- Whether the key is there at a time.
  pub held : String → ℕ → S → Bool

-- The documented behaviour. Time does not run backwards from one call to the next.
pub record IsKeyStore (S : Type 0) ⦃k : KeyStore S⦄ : Type 0 where
  pub answer :
      (key : String) (now ttl : ℕ) (s : S) → (k.set_nx key now ttl s).0 ≡ not (k.held key now s)
  pub held_set :
      (key : String) (now ttl : ℕ) (s : S) (t : ℕ)
      → k.held key now s ≡ false
      → now ≤ t
      → k.held key t (k.set_nx key now ttl s).1 ≡ ltb t (now + ttl * 1000)
  pub kept :
      (key : String) (now ttl : ℕ) (s : S)
      → k.held key now s ≡ true
      → (k.set_nx key now ttl s).1 ≡ s
  pub held_other :
      (key other : String) (now ttl : ℕ) (s : S) (t : ℕ)
      → other ≢ key
      → k.held other t (k.set_nx key now ttl s).1 ≡ k.held other t s
