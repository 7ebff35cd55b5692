-- ===== src/Llm/Answer.antt =====
-- apps/worker/src/deepseek.ts: from the models in turn to the answer that is used.
use mmxm.Prelude.{
  ◌≡◌, refl, ◌∙◌, ap, Bool, true, false, Option, none, some, List, [], ◌∷◌, ◌++◌, All,
}
use mmxm.Llm.{
  Text, Attempt, is_empty, is_usable, content_of, ask_models, kept, parsed, read_answer, ask_llm,
}
use mmxm.Llm.Extract.{braced, framed, IsFrame, object_text-framed}

-- A model gives no usable answer.
abbrev pub IsPassed : Bool → (Text → Attempt) → Text → Type 0
IsPassed reads_reasoning ask m = is_usable (content_of reads_reasoning (ask m)) ≡ false

ask_models-first :
    (reads_reasoning : Bool) (ask : Text → Attempt) (before after : List Text) (m : Text)
    → All (IsPassed reads_reasoning ask) before
    → is_usable (content_of reads_reasoning (ask m)) ≡ true
    → ask_models reads_reasoning ask (before ++ m ∷ after) ≡ content_of reads_reasoning (ask m)
unfolding ask_models
ask_models-first reads_reasoning ask [] after m passed usable = rw usable refl
ask_models-first reads_reasoning ask (x ∷ xs) after m (p, passed) usable =
    rw p (ask_models-first reads_reasoning ask xs after m passed usable)

ask_models-none :
    (reads_reasoning : Bool) (ask : Text → Attempt) (models : List Text)
    → All (IsPassed reads_reasoning ask) models
    → ask_models reads_reasoning ask models ≡ []
unfolding ask_models
ask_models-none reads_reasoning ask [] passed = refl
ask_models-none reads_reasoning ask (x ∷ xs) (p, passed) =
    rw p (ask_models-none reads_reasoning ask xs passed)

usable-is_empty : (t : Text) → is_usable t ≡ true → is_empty t ≡ false
usable-is_empty [] h = cc
usable-is_empty (c ∷ cs) h = refl

parsed-some :
    {A : Type 0} (parse : Text → Option A) (is_complete : A → Bool) (t : Text) (v : A)
    → parse t ≡ some v
    → is_complete v ≡ true
    → parsed parse is_complete (some t) ≡ some v
parsed-some parse is_complete t v e c = ap (kept is_complete) e ∙ rw c refl

module _ {A : Type 0} (print : A → Text) (parse : Text → Option A) (is_complete : A → Bool) where
  -- A round trip: a complete value that a model prints as an object, with or without fences and with
  -- remarks around it, is the value that is used, if parsing takes back what was printed, every model
  -- asked before gave no usable answer, and this one is usable. No part has a backquote, the remark
  -- before has no opening brace, the one after has no closing brace and does not begin with `json`.
  pub ask_llm-framed :
      (reads_reasoning fenced : Bool) (ask : Text → Attempt) (earlier later : List Text) (m : Text)
      (v : A) (before body after : Text)
      → print v ≡ braced body
      → parse (print v) ≡ some v
      → is_complete v ≡ true
      → IsFrame before body after
      → content_of reads_reasoning (ask m) ≡ framed fenced before body after
      → is_usable (framed fenced before body after) ≡ true
      → All (IsPassed reads_reasoning ask) earlier
      → ask_llm true reads_reasoning ask (earlier ++ m ∷ later) parse is_complete ≡ some v
  unfolding ask_llm read_answer
  ask_llm-framed reads_reasoning fenced ask earlier later m v before body after printed back
        complete frame said usable passed =
      let use_this : is_usable (content_of reads_reasoning (ask m)) ≡ true = rw said usable in
      let taken : parse (braced body) ≡ some v = rw (← printed) back in
      rw
        (
          ask_models-first reads_reasoning ask earlier later m passed use_this,
          said,
          usable-is_empty (framed fenced before body after) usable,
          object_text-framed fenced before body after frame,
        )
        (parsed-some parse is_complete (braced body) v taken complete)

module _ {A : Type 0} (parse : Text → Option A) (is_complete : A → Bool) where
  -- If no model gives a usable answer there is no answer, whatever parsing does.
  ask_llm-none :
      (enabled reads_reasoning : Bool) (ask : Text → Attempt) (models : List Text)
      → All (IsPassed reads_reasoning ask) models
      → ask_llm enabled reads_reasoning ask models parse is_complete ≡ none
  unfolding ask_llm read_answer
  ask_llm-none true reads_reasoning ask models passed =
      rw (ask_models-none reads_reasoning ask models passed) refl
  ask_llm-none false reads_reasoning ask models passed = refl
