-- ===== src/Prelude/StrSet.antt =====
-- Python's `set` of texts, as a list.
use Prim.Native.String.{String}
use mathlib.Core.Path.{◌≡◌}
use mathlib.Core.List.{List, [], ◌∷◌}
use mathlib.Core.Bool.{Bool, true, false}
use native.Mathlib.Omega.{arith}
use text.Mathlib.Text.{◌==◌ as str_eq}
use text.Mathlib.TextEquality.{eq_iff}
use mathlib.Core.Path.{ap}
use mathlib.Core.Logic.{inl, inr}
use claude_tts.Prelude.Tests.{if◌then◌else◌, Bool-cases}

-- `x in s`
unfoldable pub has : String → List String → Bool
has x [] = false
has x (y ∷ s) = let rest = has x s in if str_eq y x then true else rest

-- `s.add(x)`
unfoldable pub add : String → List String → List String
unfolding has
add x s = if has x s then s else x ∷ s

-- `s.discard(x)`, and on a list without repetitions `l.remove(x)` guarded by `x in l`
unfoldable pub discard : String → List String → List String
discard x [] = []
discard x (y ∷ s) = let rest = discard x s in if str_eq y x then rest else y ∷ rest

pub has-add :
    (x y : String) (s : List String) → has y (add x s) ≡ (if str_eq x y then true else has y s)
unfolding has add
has-add x y s = ground (arith, eq_iff x y)

pub has-discard :
    (x y : String) (s : List String) → has y (discard x s) ≡ (if str_eq x y then false else has y s)
unfolding has discard
has-discard x y [] = ground arith
has-discard x y (z ∷ s) = ground (arith, eq_iff x y, eq_iff z x, eq_iff z y, has-discard x y s)

-- `if x in l: l.remove(x)` on a list: the first occurrence goes
unfoldable pub remove_first : String → List String → List String
remove_first x [] = []
remove_first x (y ∷ l) = let rest = remove_first x l in if str_eq y x then l else y ∷ rest

-- no text stands twice
abbrev pub IsDistinct : List String → Type 0
IsDistinct [] = Unit
IsDistinct (x ∷ s) = (has x s ≡ false) × IsDistinct s

pub has-remove_first :
    (x y : String) (l : List String)
    → IsDistinct l
    → has y (remove_first x l) ≡ (if str_eq x y then false else has y l)
unfolding has remove_first
has-remove_first x y [] d = ground arith
has-remove_first x y (z ∷ l) d = ground (
  arith,
  eq_iff x y,
  eq_iff z x,
  eq_iff z y,
  has-remove_first x y l d.1,
  d.0,
  ap (λ (t : String). has t l),
)

pub remove_first-IsDistinct :
    (x : String) (l : List String) → IsDistinct l → IsDistinct (remove_first x l)
unfolding remove_first
remove_first-IsDistinct x [] d = tt
remove_first-IsDistinct x (y ∷ l) d = elim (Bool-cases (str_eq y x)) [
  | inl e ↦ rw e d.1
  | inr e ↦ rw e (ground (arith, has-remove_first x y l d.1, d.0), remove_first-IsDistinct x l d.1)
]
