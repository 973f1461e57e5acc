-- ===== src/Handlers/Named.antt =====
-- Which sessions the map of `_also_clause`, src/sonari/daemon/features/control.py, names.
use Prim.Native.Char.{code}
use claude_tts.Prelude.{ℕ, String, Bool, true, false, ◌==◌, [], ◌∷◌, if◌then◌else◌, ◌+++◌, decimal}
use claude_tts.Prelude.Dict
use claude_tts.Prelude.StrSet
use claude_tts.Host.{Host}

-- a clause with a number
abbrev counts : ℕ → String → String
counts n word = ", " +++ (decimal n +++ word)

-- two texts that differ in a place which both have
differs : String → String → Bool
differs String.[] s = false
differs (String.◌∷◌ c p) String.[] = false
differs (String.◌∷◌ c p) (String.◌∷◌ d s) =
    let rest = differs p s in if code c == code d then rest else true
