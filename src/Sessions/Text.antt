-- ===== src/Sessions/Text.antt =====
-- `_basename` and `_bare_iterm_guid` of src/sonari/sessions.py, over the characters of a text.
use Prim.Native.Char.{Char, code}
use Prim.Native.String.{String}
use claude_tts.Prelude.{Bool, true, false, ◌&&◌, ◌||◌, not, Option, none, some, ◌==◌, if◌then◌else◌}

-- `bool(s)`: a text is false when it is empty
abbrev pub truthy : String → Bool
truthy String.[] = false
truthy (String.◌∷◌ c s) = true

-- `a or b` on texts
abbrev pub or_text : String → String → String
or_text a b = if truthy a then a else b

-- `s.replace("\\", "/")`
pub forward_slashes : String → String
forward_slashes String.[] = String.[]
forward_slashes (String.◌∷◌ c s) = String.◌∷◌ (if code c == 92 then "/" else c) (forward_slashes s)

-- `s.rstrip(sep)`, for one character
pub rstrip : Char → String → String
rstrip sep String.[] = String.[]
rstrip sep (String.◌∷◌ c s) =
    let rest = rstrip sep s in
    if code c == code sep && not (truthy rest) then String.[] else String.◌∷◌ c rest

pub contains : Char → String → Bool
contains sep String.[] = false
contains sep (String.◌∷◌ c s) = let rest = contains sep s in code c == code sep || rest

-- `s.rsplit(sep, 1)[-1]`, which is `s.rpartition(sep)[2]`: what stands behind the last separator
pub after_last : Char → String → String
unfolding contains
after_last sep String.[] = String.[]
after_last sep (String.◌∷◌ c s) =
    let rest = after_last sep s in
    if contains sep s then rest else if code c == code sep then s else String.◌∷◌ c s

unfoldable pub basename : Option String → Option String
unfolding forward_slashes rstrip after_last
basename none = none
basename (some cwd) =
    let base = after_last "/" (rstrip "/" (forward_slashes cwd)) in
    if truthy cwd then (if truthy base then some base else none) else none

unfoldable pub bare_iterm_guid : String → String
unfolding after_last
bare_iterm_guid s = let tail = after_last ":" s in if truthy s then or_text tail s else ""
