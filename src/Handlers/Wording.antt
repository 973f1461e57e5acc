-- ===== src/Handlers/Wording.antt =====
-- The wording of the asks, in src/sonari/daemon/features/decisions.py, and `spearcon_label` of
-- src/sonari/spearcon.py. A message's questions and options are the dictionaries of the source, or bare texts.
use Prim.Native.Char.{code}
use claude_tts.Prelude.{
  ℕ, zero, suc, ◌+◌, String, Bool, false, not, ◌&&◌, ◌||◌, Option, List, [], ◌∷◌, ◌++◌, length, ltb,
  ◌==◌, if◌then◌else◌, str_eq, ◌+++◌, decimal, any,
}
use claude_tts.Sessions.Text.{truthy, or_text}
use claude_tts.Handlers.{strip, is_space}
use claude_tts.Handlers.Prose.{joined}

pub data Choice : Type 0 where
  described : String → Option String → Choice
  bare_choice : String → Choice

pub data Question : Type 0 where
  asked : String → Bool → List Choice → Question
  bare_question : String → Question

-- `s.endswith((".", "!", "?"))`
pub ends_sentence : String → Bool
ends_sentence String.[] = false
ends_sentence (String.◌∷◌ c s) =
    let rest = ends_sentence s in
    if truthy s then rest else code c == 46 || code c == 33 || code c == 63

abbrev pub label_of : Choice → String
label_of (described label desc) = label
label_of (bare_choice label) = label

abbrev pub desc_of : Choice → String
desc_of (described label desc) = strip desc
desc_of (bare_choice label) = ""

-- the spoken segments; the number counts the options without a label too
pub segments : ℕ → List Choice → List String
unfolding ends_sentence
segments i [] = []
segments i (o ∷ os) =
    let rest = segments (i + 1) os in
    let desc = desc_of o in
    let seg = "Option " +++ decimal i +++ ": " +++ label_of o +++ "." in
    let ended = " " +++ desc +++ (if ends_sentence desc then "" else ".") in
    if truthy (label_of o) then (if truthy desc then seg +++ ended else seg) ∷ rest else rest

abbrev pub head_of : Question → String
head_of (asked text multi opts) =
    if multi
    then (if truthy text then text +++ " " else "")
      +++ "This is a multi-select; you can pick more than one."
    else text
head_of (bare_question text) = text

abbrev pub options_of : Question → List Choice
options_of (asked text multi opts) = opts
options_of (bare_question text) = []

-- the head and the segments of a question, of what there is
abbrev pub part : String → List String → List String
part head [] = if truthy head then head ∷ [] else []
part head (s ∷ segs) =
    (if truthy head then head +++ " " +++ joined (s ∷ segs) else joined (s ∷ segs)) ∷ []

pub parts : List Question → List String
unfolding segments joined
parts [] = []
parts (q ∷ qs) = part (head_of q) (segments 1 (options_of q)) ++ parts qs

abbrev pub joined_or : List String → String → String
joined_or [] default = default
joined_or (p ∷ ps) default = joined (p ∷ ps)

unfoldable pub choice_text : List Question → String
unfolding parts joined
choice_text questions = joined_or (parts questions) "A question needs your answer."

abbrev pub is_multi : Question → Bool
is_multi (asked text multi opts) = multi
is_multi (bare_question text) = false

abbrev pub is_long : Question → Bool
is_long q = ltb 9 (length (options_of q))

unfoldable pub choice_notes : List Question → String
unfolding joined
choice_notes questions = joined (
    (if any questions is_multi
      then "Select multiple: press each number, or Space on the highlighted item, then Enter to confirm."
        ∷ []
      else [])
    ++ (if any questions is_long
        then "More than nine options; use arrow keys for ten and up." ∷ []
        else []))

unfoldable pub plan_text : Option String → String
plan_text text =
    let t = strip text in
    if truthy t then "Plan ready. " +++ t else "A plan is ready for your review."

unfoldable pub permission_text : Option String → Option String → String
permission_text action message =
    or_text (strip action) (or_text (strip message) "Permission needed.")

unfoldable pub permission_request_text : Option String → Option String → Option String → String
permission_request_text action tool summary =
    let act = strip action in
    let t = strip tool in
    let sum = strip summary in
    if truthy act
    then act
    else if truthy t && truthy sum && not (str_eq sum t)
    then t +++ ": " +++ sum
    else or_text sum (or_text t "Permission needed.")

-- the first part of a split at hyphens, underscores and white space
pub first_part : String → String
first_part String.[] = String.[]
first_part (String.◌∷◌ c s) =
    let rest = first_part s in
    if code c == 45 || code c == 95 || is_space c then String.[] else String.◌∷◌ c rest

-- `s[:n]`
pub take : ℕ → String → String
take n String.[] = String.[]
take zero (String.◌∷◌ c s) = String.[]
take (suc n) (String.◌∷◌ c s) = String.◌∷◌ c (take n s)

unfoldable pub spearcon_label : Option String → String
unfolding first_part take
spearcon_label name = take 12 (first_part (strip name))
