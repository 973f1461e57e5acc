-- ===== src/FaultCue.antt =====
-- src/sonari/daemon/faultcue.py: `FaultCue`, the set of the failure classes that have sounded.
mod Tests
use claude_tts.Prelude.{
  String, ◌≡◌, Bool, true, false, not, List, [], ◌∷◌, All, arith, str_eq, str_eq_refl, eq_iff, ◌∙◌,
  if◌then◌else◌,
}
use claude_tts.Prelude.StrSet
use claude_tts.Prelude.StrSet.{has-add, has-discard}

pub record FaultCue : Type 0 where
  pub fired : List String

abbrev pub init : FaultCue
init = record { fired = [] }

unfoldable pub should_fire : String → FaultCue → FaultCue × Bool
should_fire cls f =
    if StrSet.has cls f.fired then (f, false) else (record { fired = StrSet.add cls f.fired }, true)

unfoldable pub note_success : String → FaultCue → FaultCue
note_success cls f = record { fired = StrSet.discard cls f.fired }

pub data Event : Type 0 where
  fails : String → Event
  succeeds : String → Event

unfoldable pub step : FaultCue → Event → FaultCue
unfolding should_fire note_success
step f (fails cls) = (should_fire cls f).0
step f (succeeds cls) = note_success cls f

unfoldable pub run : FaultCue → List Event → FaultCue
unfolding step
run f [] = f
run f (e ∷ es) = run (step f e) es

-- the event is a success of the class
abbrev pub rearms : String → Event → Bool
rearms cls (fails c) = false
rearms cls (succeeds c) = str_eq c cls

stays-fired :
    (cls : String) (f : FaultCue) (es : List Event)
    → All (λ e. rearms cls e ≡ false) es
    → StrSet.has cls f.fired ≡ true
    → StrSet.has cls (run f es).fired ≡ true
unfolding run step should_fire note_success
stays-fired cls f [] a h = h
stays-fired cls f (fails c ∷ es) (e, a) h =
    stays-fired cls (step f (fails c)) es a (ground (arith, h, has-add c cls f.fired))
stays-fired cls f (succeeds c ∷ es) (e, a) h =
    stays-fired cls (step f (succeeds c)) es a (ground (arith, h, e, has-discard c cls f.fired))

-- After any failure of a class, a further one stays silent until a success of that class; and right behind
-- such a success it sounds.
pub fires_once :
    (cls : String) (f : FaultCue) (es : List Event)
    → All (λ e. rearms cls e ≡ false) es
    → ((should_fire cls (run (should_fire cls f).0 es)).1 ≡ false)
      × ((should_fire cls (note_success cls (run f es))).1 ≡ true)
unfolding should_fire note_success
fires_once cls f es a =
    let there : StrSet.has cls (StrSet.add cls f.fired) ≡ true =
      has-add cls cls f.fired ∙ simp str_eq_refl in
    let gone : StrSet.has cls (StrSet.discard cls (run f es).fired) ≡ false =
      has-discard cls cls (run f es).fired ∙ simp str_eq_refl in
    (
      ground (arith, stays-fired cls (should_fire cls f).0 es a (ground (arith, there))),
      ground (arith, gone),
    )
