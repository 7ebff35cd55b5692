-- ===== src/Llm/Tests.antt =====
-- The theorem on the answers at one: the first model fails, the second says "ok" before its object, which
-- stands in fences. A value is its text, which is printed in braces.
use mmxm.Prelude.{◌≡◌, refl, true, Option, none, some, [], ◌∷◌, ◌++◌, if◌then◌else◌}
use mmxm.Bot.{same_units}
use mmxm.Llm.{Text, Attempt, bad_status, answered, ask_llm}
use mmxm.Llm.Extract.{braced, framed}
use mmxm.Llm.Answer.{ask_llm-framed}

abbrev first_model : Text
first_model = 97 ∷ []

abbrev second_model : Text
second_model = 98 ∷ []

-- `ok `, and a quoted number.
abbrev remark : Text
remark = 111 ∷ 107 ∷ 32 ∷ []

abbrev inside : Text
inside = 34 ∷ 49 ∷ 34 ∷ []

abbrev ask : Text → Attempt
ask m =
    if same_units m first_model
    then bad_status
    else answered (some (framed true remark inside [])) none

abbrev parse : Text → Option Text
parse [] = none
parse (c ∷ cs) = some (c ∷ cs)

ask_llm-framed_example :
    ask_llm true true ask ((first_model ∷ []) ++ second_model ∷ []) parse (λ v. true)
    ≡ some (braced inside)
ask_llm-framed_example =
    ask_llm-framed (λ v. v) parse (λ v. true) true true ask (first_model ∷ []) [] second_model
      (braced inside) remark inside [] refl refl refl
      (record {
        unfenced = (refl, (refl, (refl, tt)));
        plain = (refl, (refl, (refl, tt)));
        unfenced_after = tt;
        no_json = refl;
        opens = (refl, (refl, (refl, tt)));
        closes = tt;
      })
      refl refl (refl, tt)
