-- ===== src/Prelude/Text.antt =====
-- Whole texts: their equality as a test, and the laws the components use.
use Prim.Native.String.{String}
use text.Mathlib.Text
use text.Mathlib.TextEquality.{eq_iff}
use text.Mathlib.TextPositions.{eq_refl}
use mathlib.Core.Path.{◌≡◌}
use mathlib.Core.Logic.{◌↔◌, ◌≢◌, inl, inr}
use mathlib.Core.Bool.{Bool, true, false}
use mmxm.Prelude.Tests.{Bool-cases}

abbrev pub same_text : String → String → Bool
same_text s t = text.Mathlib.Text.◌==◌ s t

pub same_text_iff : (s t : String) → (same_text s t ≡ true) ↔ (s ≡ t)
same_text_iff s t = eq_iff s t

pub same_text_refl : (s : String) → same_text s s ≡ true
same_text_refl s = eq_refl s

pub same_text_ne : (s t : String) → s ≢ t → same_text s t ≡ false
same_text_ne s t ne = elim (Bool-cases (same_text s t)) [
  | inl e ↦ absurd (ne ((same_text_iff s t).0 e))
  | inr e ↦ e
]
