-- ===== src/Llm/Extract.antt =====
-- apps/worker/src/deepseek.ts: the object in an answer is found whatever stands around it.
use mmxm.Prelude.{
  ℕ, suc, ◌+◌, ◌-◌, ◌≡◌, refl, sym, ◌∙◌, ap, inl, inr, ◌==◌, ==_iff, Bool, true, false, none, some,
  [], ◌∷◌, ◌++◌, leb, take, drop, length, All, Bool-cases, arith,
}
use mathlib.Core.List.{append_assoc, append-nil}
use mmxm.Prelude.Loops.{length-append, All-append}
use mmxm.Bot.{is_space, skip_spaces}
use mmxm.Llm.{
  Text, put_back, trim_end, trim, starts_with, fence, json_fence, strip_fences, index_of,
  last_index_of, between, object_text,
}

-- A text without a unit.
abbrev pub Lacks : ℕ → Text → Type 0
Lacks x t = All (λ c. (c == x) ≡ false) t

abbrev pub braced : Text → Text
braced body = 123 ∷ body ++ 125 ∷ []

strip_of_Lacks :
    (t rest : Text) → Lacks 96 t → strip_fences 0 (t ++ rest) ≡ t ++ strip_fences 0 rest
unfolding strip_fences
strip_of_Lacks [] rest h = refl
strip_of_Lacks (c ∷ cs) rest (h, hs) = rw h (ap (◌∷◌ c) (strip_of_Lacks cs rest hs))

index_of-append :
    (x : ℕ) (before rest : Text)
    → Lacks x before
    → index_of x (before ++ x ∷ rest) ≡ some (length before)
index_of-append x [] rest h = rw ((==_iff x x).1 refl) refl
index_of-append x (c ∷ cs) rest (h, hs) = rw (h, index_of-append x cs rest hs) refl

last_index_of-Lacks : (x : ℕ) (t : Text) → Lacks x t → last_index_of x t ≡ none
last_index_of-Lacks x [] h = refl
last_index_of-Lacks x (c ∷ cs) (h, hs) = rw (last_index_of-Lacks x cs hs, h) refl

last_index_of-append :
    (x : ℕ) (before rest : Text)
    → Lacks x rest
    → last_index_of x (before ++ x ∷ rest) ≡ some (length before)
last_index_of-append x [] rest h = rw (last_index_of-Lacks x rest h, (==_iff x x).1 refl) refl
last_index_of-append x (c ∷ cs) rest h = rw (last_index_of-append x cs rest h) refl

drop-append : (xs ys : Text) → drop (length xs) (xs ++ ys) ≡ ys
drop-append [] ys = refl
drop-append (x ∷ xs) ys = drop-append xs ys

take-append : (xs ys : Text) → take (length xs) (xs ++ ys) ≡ xs
take-append [] ys = refl
take-append (x ∷ xs) ys = ap (◌∷◌ x) (take-append xs ys)

-- Spaces go only before the object and after it.
skip_spaces-append :
    (t rest : Text) (c : ℕ)
    → is_space c ≡ false
    → skip_spaces (t ++ c ∷ rest) ≡ skip_spaces t ++ c ∷ rest
skip_spaces-append [] rest c h = rw h refl
skip_spaces-append (x ∷ xs) rest c h = elim (Bool-cases (is_space x)) [
  | inl e ↦ rw e (skip_spaces-append xs rest c h)
  | inr e ↦ rw e refl
]

put_back_visible : (c : ℕ) (t : Text) → is_space c ≡ false → put_back c t ≡ c ∷ t
put_back_visible c [] h = rw h refl
put_back_visible c (d ∷ ds) h = refl

put_back_text : (x c : ℕ) (xs rest : Text) → put_back x (xs ++ c ∷ rest) ≡ x ∷ xs ++ c ∷ rest
put_back_text x c [] rest = refl
put_back_text x c (d ∷ ds) rest = refl

trim_end-append :
    (t rest : Text) (c : ℕ) → is_space c ≡ false → trim_end (t ++ c ∷ rest) ≡ t ++ c ∷ trim_end rest
trim_end-append [] rest c h = put_back_visible c (trim_end rest) h
trim_end-append (x ∷ xs) rest c h =
    ap (put_back x) (trim_end-append xs rest c h) ∙ put_back_text x c xs (trim_end rest)

-- What is before the object after the trim is a part of what was before it.
skip_spaces-Lacks : (x : ℕ) (t : Text) → Lacks x t → Lacks x (skip_spaces t)
skip_spaces-Lacks x [] h = tt
skip_spaces-Lacks x (c ∷ cs) (h, hs) = elim (Bool-cases (is_space c)) [
  | inl e ↦ rw e (skip_spaces-Lacks x cs hs)
  | inr e ↦ rw e (h, hs)
]

trim_end-Lacks : (x : ℕ) (t : Text) → Lacks x t → Lacks x (trim_end t)
trim_end-Lacks x [] h = tt
trim_end-Lacks x (c ∷ cs) (h, hs) = put_back-Lacks x c (trim_end cs) h (trim_end-Lacks x cs hs)
  where
    put_back-Lacks : (x c : ℕ) (t : Text) → (c == x) ≡ false → Lacks x t → Lacks x (put_back c t)
    put_back-Lacks x c [] h hs = elim (Bool-cases (is_space c)) [
      | inl e ↦ rw e tt
      | inr e ↦ rw e (h, tt)
    ]
    put_back-Lacks x c (d ∷ ds) h hs = (h, hs)

shape :
    (before body after : Text)
    → before ++ (braced body ++ after) ≡ (before ++ 123 ∷ body) ++ 125 ∷ after
shape before body after =
    ap (λ x. before ++ 123 ∷ x) (append_assoc body (125 ∷ []) after)
    ∙ sym (append_assoc before (123 ∷ body) (125 ∷ after))

slice_of_object :
    (before body after : Text)
    → Lacks 123 before
    → Lacks 125 after
    → (let t = before ++ (braced body ++ after) in
        between (index_of 123 t) (last_index_of 125 t) t ≡ some (braced body))
slice_of_object before body after low high =
    let t = before ++ (braced body ++ after) in
    let first : index_of 123 t ≡ some (length before) =
      index_of-append 123 before ((body ++ 125 ∷ []) ++ after) low in
    let last : last_index_of 125 t ≡ some (length (before ++ 123 ∷ body)) =
      ap (last_index_of 125) (shape before body after)
      ∙ last_index_of-append 125 (before ++ 123 ∷ body) after high in
    let longer : length (before ++ 123 ∷ body) ≡ length before + suc (length body) =
      length-append before (123 ∷ body) in
    let apart : leb (length (before ++ 123 ∷ body)) (length before) ≡ false = ground arith in
    let size : length (braced body) ≡ suc (suc (length body)) =
      omega (arith, length-append body (125 ∷ [])) in
    let whole : suc (length (before ++ 123 ∷ body)) - length before ≡ length (braced body) =
      omega arith in
    rw
      (
        first,
        last,
        apart,
        whole,
        drop-append before (braced body ++ after),
        take-append (braced body) after,
      )
      refl

trim_of_object :
    (before body after : Text)
    → trim (before ++ (braced body ++ after))
      ≡ skip_spaces before ++ (braced body ++ trim_end after)
trim_of_object before body after =
    let left = skip_spaces-append before ((body ++ 125 ∷ []) ++ after) 123 refl in
    ap trim_end (left ∙ shape (skip_spaces before) body after)
    ∙ trim_end-append (skip_spaces before ++ 123 ∷ body) after 125 refl
    ∙ sym (shape (skip_spaces before) body (trim_end after))

-- An object with what stands around it, in fences or not.
abbrev pub framed : Bool → Text → Text → Text → Text
framed false before body after = before ++ (braced body ++ after)
framed true before body after = before ++ (json_fence ++ (braced body ++ (fence ++ after)))

-- `json`, which a closing fence is not followed by.
abbrev pub json_word : Text
json_word = 106 ∷ 115 ∷ 111 ∷ 110 ∷ []

pub record IsFrame (before body after : Text) : Type 0 where
  pub unfenced : Lacks 96 before
  pub plain : Lacks 96 body
  pub unfenced_after : Lacks 96 after
  pub no_json : starts_with json_word after ≡ false
  pub opens : Lacks 123 before
  pub closes : Lacks 125 after

strip_alone : (t : Text) → Lacks 96 t → strip_fences 0 t ≡ t
unfolding strip_fences
strip_alone t h = ap (strip_fences 0) (sym (append-nil t)) ∙ strip_of_Lacks t [] h ∙ append-nil t

braced-Lacks : (body : Text) → Lacks 96 body → Lacks 96 (braced body)
braced-Lacks body h = (refl, All-append (λ c. (c == 96) ≡ false) body (125 ∷ []) h (refl, tt))

strip_close :
    (after : Text)
    → Lacks 96 after
    → starts_with json_word after ≡ false
    → strip_fences 0 (fence ++ after) ≡ after
unfolding strip_fences
strip_close after h e = rw e (strip_alone after h)

strip_of_framed :
    (fenced : Bool) (before body after : Text)
    → IsFrame before body after
    → strip_fences 0 (framed fenced before body after) ≡ before ++ (braced body ++ after)
unfolding strip_fences
strip_of_framed false before body after f =
    strip_of_Lacks before (braced body ++ after) f.unfenced
    ∙ ap (λ t. before ++ t)
        (strip_of_Lacks (braced body) after (braced-Lacks body f.plain)
          ∙ ap (λ t. braced body ++ t) (strip_alone after f.unfenced_after))
strip_of_framed true before body after f =
    strip_of_Lacks before (json_fence ++ (braced body ++ (fence ++ after))) f.unfenced
    ∙ ap (λ t. before ++ t)
        (strip_of_Lacks (braced body) (fence ++ after) (braced-Lacks body f.plain)
          ∙ ap (λ t. braced body ++ t) (strip_close after f.unfenced_after f.no_json))

-- The object is found in its frame.
pub object_text-framed :
    (fenced : Bool) (before body after : Text)
    → IsFrame before body after
    → object_text (framed fenced before body after) ≡ some (braced body)
unfolding object_text
object_text-framed fenced before body after f =
    rw (strip_of_framed fenced before body after f, trim_of_object before body after)
      (slice_of_object (skip_spaces before) body (trim_end after)
        (skip_spaces-Lacks 123 before f.opens) (trim_end-Lacks 125 after f.closes))
