-- ===== src/Guard.antt =====
-- apps/api/src/modules/mql5-gateway/mql5-signature.guard.ts: which requests of a terminal are let in.
-- `Number` on a text and HMAC-SHA256 as hexadecimal text are parameters; `JSON.stringify` of the body is
-- a field of the request. The lengths and bytes of the two signatures are compared as whole texts.
pub mod Authentic
pub mod Replay
mod Tests
use Prim.Native.String
use text.Mathlib.Text.{find?}
use mmxm.Prelude.{
  ℕ, ◌/◌, Bool, true, false, not, ◌||◌, Option, none, some, List, [], ◌∷◌, String, same_text,
  if◌then◌else◌, find,
}
use mmxm.Double.{Double, of_ℕ}
use mmxm.KeyStore.{KeyStore}

pub data Refusal : Type 0 where
  missing_headers bad_api_key stale_timestamp nonce_reused bad_signature unknown_terminal : Refusal

pub record AuthContext : Type 0 where
  pub terminal_db_id : String
  pub terminal_id : String
  pub broker_symbol : String

pub data Entry : Type 0 where
  let_in : AuthContext → Entry
  refused : Refusal → Entry

-- The headers as they come, the raw body where it was kept, the body as JSON again, and the URL.
pub record Request : Type 0 where
  pub api_key : Option String
  pub timestamp : Option String
  pub nonce : Option String
  pub signature : Option String
  pub terminal_id : Option String
  pub raw_body : Option String
  pub body : String
  pub url : Option String

pub record Credentials : Type 0 where
  pub api_key : String
  pub timestamp : String
  pub nonce : String
  pub signature : String
  pub terminal_id : String

pub record Terminal : Type 0 where
  pub id : String
  pub terminal_id : String
  pub broker_symbol : String

pub record GuardSettings (W : Type 0) : Type 0 where
  pub api_key : String
  pub api_secret : String
  pub skew_seconds : W
  pub nonce_ttl_seconds : ℕ
  pub to_number : String → W
  pub hmac : String → String → String

infixr 60 ◌+++◌
abbrev ◌+++◌ : String → String → String
s +++ t = Prim.Native.String.◌++◌ s t

-- An absent header and an empty one are alike.
abbrev pub is_missing : Option String → Bool
is_missing none = true
is_missing (some s) = same_text s ""

abbrev text_or : Option String → String → String
text_or none t = t
text_or (some s) t = s

-- The five headers, if all are there.
abbrev pub credentials : Request → Option Credentials
credentials r =
    if is_missing r.api_key
      || is_missing r.timestamp
      || is_missing r.nonce
      || is_missing r.signature
      || is_missing r.terminal_id
    then none
    else some (record {
      api_key = text_or r.api_key "";
      timestamp = text_or r.timestamp "";
      nonce = text_or r.nonce "";
      signature = text_or r.signature "";
      terminal_id = text_or r.terminal_id "";
    })

abbrev pub nonce_key : Credentials → String
nonce_key c = "mmxm:nonce:" +++ c.terminal_id +++ ":" +++ c.nonce

abbrev pub signed_text : Request → Credentials → String
signed_text r c = c.timestamp +++ "." +++ c.nonce +++ "." +++ text_or r.raw_body r.body

-- `req.url?.includes('/mql5/handshake')`, which looks at the whole URL.
abbrev pub names_handshake : Option String → Bool
names_handshake none = false
names_handshake (some url) = elim (find? url "/mql5/handshake") [ none ↦ false | some _ ↦ true ]

abbrev pub known : List Terminal → String → Option Terminal
known terminals terminal_id = find (λ t. same_text t.terminal_id terminal_id) terminals

-- The last part: the terminal of the request, or a handshake that will register it.
abbrev pub enter : Request → Credentials → Option Terminal → Entry
enter r c (some t) =
    let_in (record {
      terminal_db_id = t.id;
      terminal_id = c.terminal_id;
      broker_symbol = t.broker_symbol;
    })
enter r c none =
    if names_handshake r.url
    then let_in (record { terminal_db_id = ""; terminal_id = c.terminal_id; broker_symbol = "" })
    else refused unknown_terminal

module _ {W : Type 0} ⦃d : Double W⦄ where
  open d use {sub, abs, lt, is_finite}

  -- The skew in seconds is not above the limit, of a timestamp that is a number.
  pub is_timely : GuardSettings W → ℕ → Credentials → Bool
  is_timely g now c =
      let ts = g.to_number c.timestamp in
      if is_finite ts then not (lt g.skew_seconds (abs (sub (of_ℕ (now / 1000)) ts))) else false

  -- The part after the nonce.
  pub verify : GuardSettings W → List Terminal → Request → Credentials → Entry
  verify g terminals r c =
      if same_text c.signature (g.hmac g.api_secret (signed_text r c))
      then enter r c (known terminals c.terminal_id)
      else refused bad_signature

  module _ {S : Type 0} ⦃k : KeyStore S⦄ where
    after_nonce : GuardSettings W → List Terminal → Request → Credentials → Bool × S → Entry × S
    after_nonce g terminals r c (fresh, s) =
        (if fresh then verify g terminals r c else refused nonce_reused, s)

    pub check : GuardSettings W → List Terminal → Request → ℕ → S → Option Credentials → Entry × S
    check g terminals r now s none = (refused missing_headers, s)
    check g terminals r now s (some c) =
        if not (same_text c.api_key g.api_key)
        then (refused bad_api_key, s)
        else if not (is_timely g now c)
        then (refused stale_timestamp, s)
        else after_nonce g terminals r c (k.set_nx (nonce_key c) now g.nonce_ttl_seconds s)

    -- `canActivate`. The nonce is spent before the signature is looked at.
    pub can_activate : GuardSettings W → List Terminal → Request → ℕ → S → Entry × S
    can_activate g terminals r now s = check g terminals r now s (credentials r)
