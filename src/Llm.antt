-- ===== src/Llm.antt =====
-- apps/worker/src/deepseek.ts: the models that are asked in turn, and the object in a model's answer.
-- A text is the list of its UTF-16 code units. The request to a model, with its prompt and the news in it,
-- and `JSON.parse` are parameters.
pub mod Extract
pub mod Answer
mod Tests
use mmxm.Prelude.{
  ℕ, zero, suc, ◌-◌, ◌==◌, Bool, true, false, not, ◌&&◌, ◌||◌, Option, none, some, List, [], ◌∷◌,
  ◌++◌, map, leb, if◌then◌else◌, any, filter, take, drop,
}
use mmxm.Bot.{same_units, is_space, skip_spaces}

abbrev pub Text : Type 0
Text = List ℕ

-- What a request to a model ends with: it throws, it has a bad status, or it gives the two texts of the
-- first choice, where they are there.
pub data Attempt : Type 0 where
  thrown bad_status : Attempt
  answered : Option Text → Option Text → Attempt

-- A unit before a trimmed text.
abbrev pub put_back : ℕ → Text → Text
put_back c [] = if is_space c then [] else c ∷ []
put_back c (d ∷ ds) = c ∷ d ∷ ds

abbrev pub trim_end : Text → Text
trim_end [] = []
trim_end (c ∷ cs) = put_back c (trim_end cs)

abbrev pub trim : Text → Text
trim t = trim_end (skip_spaces t)

abbrev cons_first : ℕ → List Text → List Text
cons_first c [] = (c ∷ []) ∷ []
cons_first c (w ∷ ws) = (c ∷ w) ∷ ws

-- `split(',')`
abbrev pub split_commas : Text → List Text
split_commas [] = [] ∷ []
split_commas (c ∷ cs) = if c == 44 then [] ∷ split_commas cs else cons_first c (split_commas cs)

abbrev pub is_empty : Text → Bool
is_empty [] = true
is_empty (_ ∷ _) = false

-- `filter((v, i, a) => a.indexOf(v) === i)`: the first of equal ones, among those that were seen.
abbrev pub without_repeats : List Text → List Text → List Text
without_repeats seen [] = []
without_repeats seen (v ∷ vs) =
    let rest = without_repeats (v ∷ seen) vs in if any (same_units v) seen then rest else v ∷ rest

pub fallback_models : Text → Text → List Text
fallback_models model fallbacks =
    without_repeats [] (model ∷ filter (λ t. not (is_empty t)) (map trim (split_commas fallbacks)))

abbrev pub starts_with : Text → Text → Bool
starts_with [] t = true
starts_with (p ∷ ps) [] = false
starts_with (p ∷ ps) (c ∷ cs) = c == p && starts_with ps cs

abbrev pub includes : Text → Text → Bool
includes p [] = starts_with p []
includes p (c ∷ cs) = starts_with p (c ∷ cs) || includes p cs

-- `[CommandCode error`
abbrev pub error_mark : Text
error_mark =
    91 ∷ 67 ∷ 111 ∷ 109 ∷ 109 ∷ 97 ∷ 110 ∷ 100 ∷ 67 ∷ 111 ∷ 100 ∷ 101 ∷ 32 ∷ 101 ∷ 114 ∷ 114 ∷ 111
    ∷ 114 ∷ []

abbrev text_or : Option Text → Text → Text
text_or none t = t
text_or (some s) t = s

-- `content ?? reasoning_content ?? ''` where a signal is detected, `content ?? ''` where one is verified.
abbrev pub content_of : Bool → Attempt → Text
content_of reads_reasoning thrown = []
content_of reads_reasoning bad_status = []
content_of reads_reasoning (answered content reasoning) =
    text_or content (if reads_reasoning then text_or reasoning [] else [])

-- An answer that is empty, or that carries the error of the relay, is passed over.
abbrev pub is_usable : Text → Bool
is_usable content = not (is_empty content || includes error_mark content)

-- The loop over the models: the first usable answer, the empty text if there is none.
pub ask_models : Bool → (Text → Attempt) → List Text → Text
ask_models reads_reasoning ask [] = []
ask_models reads_reasoning ask (m ∷ ms) =
    let rest = ask_models reads_reasoning ask ms in
    if is_usable (content_of reads_reasoning (ask m))
    then content_of reads_reasoning (ask m)
    else rest

-- Three backquotes, and the same with `json`.
abbrev pub fence : Text
fence = 96 ∷ 96 ∷ 96 ∷ []

abbrev pub json_fence : Text
json_fence = 96 ∷ 96 ∷ 96 ∷ 106 ∷ 115 ∷ 111 ∷ 110 ∷ []

-- The replacement of both by nothing: the number counts the units of a match that are still to pass.
pub strip_fences : ℕ → Text → Text
strip_fences n [] = []
strip_fences (suc n) (c ∷ cs) = strip_fences n cs
strip_fences zero (c ∷ cs) =
    if starts_with json_fence (c ∷ cs)
    then strip_fences 6 cs
    else if starts_with fence (c ∷ cs)
    then strip_fences 2 cs
    else c ∷ strip_fences 0 cs

abbrev pub index_of : ℕ → Text → Option ℕ
index_of x [] = none
index_of x (c ∷ cs) =
    if c == x then some 0 else elim (index_of x cs) [ none ↦ none | some i ↦ some (suc i) ]

abbrev pub last_index_of : ℕ → Text → Option ℕ
last_index_of x [] = none
last_index_of x (c ∷ cs) = elim (last_index_of x cs) [
  | none ↦ if c == x then some 0 else none
  | some i ↦ some (suc i)
]

-- From the first `{` to the last `}`, if that comes after it.
abbrev pub between : Option ℕ → Option ℕ → Text → Option Text
between none _ t = none
between (some _) none t = none
between (some from) (some upto) t =
    if leb upto from then none else some (take (suc upto - from) (drop from t))

pub object_text : Text → Option Text
object_text content =
    let cleaned = trim (strip_fences 0 content) in
    between (index_of 123 cleaned) (last_index_of 125 cleaned) cleaned

module _ {A : Type 0} where
  -- `JSON.parse` gives none where it throws; an object without the asked field is dropped.
  abbrev pub kept : (A → Bool) → Option A → Option A
  kept is_complete none = none
  kept is_complete (some v) = if is_complete v then some v else none

  abbrev pub parsed : (Text → Option A) → (A → Bool) → Option Text → Option A
  parsed parse is_complete none = none
  parsed parse is_complete (some t) = kept is_complete (parse t)

  pub read_answer : (Text → Option A) → (A → Bool) → Text → Option A
  read_answer parse is_complete content =
      if is_empty content then none else parsed parse is_complete (object_text content)

  -- `detectSignalWithLlm`, and `verifySignalWithLlm` where it is enabled.
  pub ask_llm :
      Bool → Bool → (Text → Attempt) → List Text → (Text → Option A) → (A → Bool) → Option A
  ask_llm enabled reads_reasoning ask models parse is_complete =
      if enabled
      then read_answer parse is_complete (ask_models reads_reasoning ask models)
      else none
