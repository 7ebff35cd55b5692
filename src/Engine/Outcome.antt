-- ===== src/Engine/Outcome.antt =====
-- How a run of `analyze` ends: with a value, with a refusal that says why, or by a TypeError at a
-- null that the code asserts to be none.
use mathlib.Core.Option.{some-injective}
use mmxm.Prelude.{◌≡◌, ◌≢◌, refl, ap, Bool, true, false, Option, none, some, List}
use mmxm.Types.{SignalReason, ReasonCode}

pub data Why : Type 0 where
  insufficient_candles atr_not_ready no_model : Why
  failed_checks : List ReasonCode → Why
  no_entry_zone stale_entry_zone zero_risk rr_too_low confidence_low : Why

-- The output with no signal: the reasons so far and `debug.why`.
pub record Refusal : Type 0 where
  pub reasons : List SignalReason
  pub why : Why

pub data Run (A : Type 0) : Type 0 where
  go : A → Run A
  stop : Refusal → Run A
  thrown : Run A

infixl 5 ◌>>=◌ ◌>>◌
abbrev pub ◌>>=◌ : {A B : Type 0} → Run A → (A → Run B) → Run B
go a >>= f = f a
stop r >>= f = stop r
thrown >>= f = thrown

abbrev pub ◌>>◌ : {B : Type 0} → Run (Unit {0}) → Run B → Run B
m >> k = m >>= λ _. k

-- An early return when the test passes.
unfoldable pub unless : Bool → List SignalReason → Why → Run (Unit {0})
unless true reasons why = stop (record { reasons = reasons; why = why })
unless false reasons why = go tt

-- An early return on null.
unfoldable pub need : {A : Type 0} → Option A → List SignalReason → Why → Run A
need none reasons why = stop (record { reasons = reasons; why = why })
need (some a) reasons why = go a

-- `e!`, of which a field is read at once.
unfoldable pub non_null : {A : Type 0} → Option A → Run A
non_null none = thrown
non_null (some a) = go a

-- Inversion of the parts of a run that gives a value.
pub >>=-eq-go :
    {A B : Type 0} (m : Run A) (f : A → Run B) {b : B}
    → (m >>= f) ≡ go b
    → (a : A) × (m ≡ go a) × (f a ≡ go b)
>>=-eq-go (go a) f e = (a, refl, e)
>>=-eq-go (stop r) f e = cc
>>=-eq-go thrown f e = cc

pub unless-eq-go :
    {B : Type 0} (b : Bool) (reasons : List SignalReason) (why : Why) (k : Run B) {x : B}
    → (unless b reasons why >> k) ≡ go x
    → (b ≡ false) × (k ≡ go x)
unfolding unless
unless-eq-go true reasons why k e = cc
unless-eq-go false reasons why k e = (refl, e)

pub need-eq-go :
    {A B : Type 0} (o : Option A) (reasons : List SignalReason) (why : Why) (f : A → Run B) {b : B}
    → (need o reasons why >>= f) ≡ go b
    → (a : A) × (o ≡ some a) × (f a ≡ go b)
unfolding need
need-eq-go none reasons why f e = cc
need-eq-go (some a) reasons why f e = (a, refl, e)

pub non_null-eq-go :
    {A B : Type 0} (o : Option A) (f : A → Run B) {b : B}
    → (non_null o >>= f) ≡ go b
    → (a : A) × (o ≡ some a) × (f a ≡ go b)
unfolding non_null
non_null-eq-go none f e = cc
non_null-eq-go (some a) f e = (a, refl, e)

pub go-injective : {A : Type 0} {a b : A} → go a ≡ go b → a ≡ b
go-injective {A} {a} e = ap (value a) e
  where
    value : A → Run A → A
    value x (go y) = y
    value x _ = x

-- A run whose parts do not throw does not throw.
pub bind_total :
    {A B : Type 0} (m : Run A) (f : A → Run B)
    → m ≢ thrown
    → ((a : A) → m ≡ go a → f a ≢ thrown)
    → (m >>= f) ≢ thrown
bind_total (go a) f h k = k a refl
bind_total (stop r) f h k = λ e. cc
bind_total thrown f h k = λ _. h refl

pub unless_total :
    {B : Type 0} (b : Bool) (reasons : List SignalReason) (why : Why) (k : Run B)
    → (b ≡ false → k ≢ thrown)
    → (unless b reasons why >> k) ≢ thrown
unfolding unless
unless_total true reasons why k h = λ e. cc
unless_total false reasons why k h = h refl

pub need_total :
    {A B : Type 0} (o : Option A) (reasons : List SignalReason) (why : Why) (f : A → Run B)
    → ((a : A) → f a ≢ thrown)
    → (need o reasons why >>= f) ≢ thrown
unfolding need
need_total none reasons why f h = λ e. cc
need_total (some a) reasons why f h = h a

pub non_null_total :
    {A B : Type 0} (o : Option A) (a : A) (f : A → Run B)
    → o ≡ some a
    → f a ≢ thrown
    → (non_null o >>= f) ≢ thrown
unfolding non_null
non_null_total none a f e h = cc
non_null_total (some b) a f e h = rw (some-injective b a e) h

-- A null behind `!` throws.
pub non_null_thrown :
    {A B : Type 0} (o : Option A) (f : A → Run B) → o ≡ none → (non_null o >>= f) ≡ thrown
unfolding non_null
non_null_thrown none f e = refl
non_null_thrown (some a) f e = cc
