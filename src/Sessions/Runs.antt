-- ===== src/Sessions/Runs.antt =====
-- Sequences of the operations of `SessionManager` in one life of the daemon. `load_state`, with which a life
-- begins, is in Sessions/Lives.antt.
use mathlib.Core.Path.{subst}
use claude_tts.Prelude.{
  String, ◌≡◌, refl, ap, sym, ◌∙◌, Bool, true, false, Option, none, some, List, [], ◌∷◌, arith,
  str_eq_refl, inl, inr, Option-cases,
}
use claude_tts.Prelude.Dict
use claude_tts.Prelude.Dict.{Dict, IsUnique, get-remove, remove-IsUnique}
use claude_tts.Prelude.StrSet
use claude_tts.Prelude.StrSet.{IsDistinct, has-remove_first, remove_first-IsDistinct}
use claude_tts.Sessions.{
  set_foreground, Identity, SessionManager, init, record_session, assign_number, touch_mru,
  set_foreground, set_speaker, register, claim_announce, unregister, focus,
}
use claude_tts.Sessions.Terminal.{
  set_identity, set_os_focus, clear_quarantine, repair_focus, resolve_os_focus, pin, evict,
  store_identity,
}
use claude_tts.Sessions.Numbers.{IsNumbered, record_session-IsNumbered, unregister-IsNumbered}
use claude_tts.Sessions.Focus.{repair_focus-pinned, repair_focus-unset, repair_focus-retry}
use claude_tts.Sessions.Exclusive.{
  evict-IsCleared, store_identity-IsExclusive, IsExclusive, IsExclusive-of_same,
}

pub data Op : Type 0 where
  sees : String → Option String → Op
  foregrounds : String → Option String → Op
  speaks : String → Op
  focuses : String → Option String → Op
  announces : String → Op
  identifies : String → Identity → Op
  signals : String → String → String → Bool → Op
  lifts : String → Op
  ends : String → Op

unfoldable pub step : SessionManager → Op → SessionManager
unfolding set_os_focus claim_announce
step m (sees s cwd) = register s cwd m
step m (foregrounds s cwd) = set_foreground s cwd m
step m (speaks s) = set_speaker s m
step m (focuses s cwd) = focus s cwd m
step m (announces s) = (claim_announce s m).0
step m (identifies s i) = set_identity s i m
step m (signals program tty guid focused) = (set_os_focus program tty guid focused m).0
step m (lifts s) = clear_quarantine s m
step m (ends s) = unregister s m

unfoldable pub run : SessionManager → List Op → SessionManager
unfolding step
run m [] = m
run m (op ∷ ops) = run (step m op) ops

-- What holds of the roster between two operations.
pub record IsSound (m : SessionManager) : Type 0 where
  pub numbered : IsNumbered m
  pub exclusive : IsExclusive m
  pub recency : IsDistinct m.mru

-- what the operations on terminals leave alone
record IsSameRoster (m m' : SessionManager) : Type 0 where
  numbers : m'.numbers ≡ m.numbers
  sessions : m'.sessions ≡ m.sessions

IsNumbered-of_same : (m m' : SessionManager) → IsSameRoster m m' → IsNumbered m → IsNumbered m'
IsNumbered-of_same m m' e i = record {
  unique = subst IsUnique (sym e.numbers) i.unique;
  owned = λ s t n hs ht.
      i.owned s t n (ap (Dict.get s) (sym e.numbers) ∙ hs) (ap (Dict.get t) (sym e.numbers) ∙ ht);
  positive = λ s n h. i.positive s n (ap (Dict.get s) (sym e.numbers) ∙ h);
  listed = λ s h. ap (Dict.has s) e.sessions ∙ i.listed s (ap (Dict.has s) (sym e.numbers) ∙ h);
}

touch-IsDistinct :
    (s : String) (l : List String) → IsDistinct l → IsDistinct (s ∷ StrSet.remove_first s l)
touch-IsDistinct s l d =
    (has-remove_first s s l d ∙ simp str_eq_refl, remove_first-IsDistinct s l d)

-- a change of other fields, or a visit on top of it
IsSound-of_same :
    (m m' : SessionManager)
    → IsSameRoster m m'
    → m'.identities ≡ m.identities
    → IsDistinct m'.mru
    → IsSound m
    → IsSound m'
IsSound-of_same m m' e same d x = record {
  numbered = IsNumbered-of_same m m' e x.numbered;
  exclusive = IsExclusive-of_same m m' same x.exclusive;
  recency = d;
}

mru-record_session :
    (s : String) (cwd : Option String) (m : SessionManager)
    → ((record_session s cwd m).mru ≡ m.mru) × ((record_session s cwd m).identities ≡ m.identities)
unfolding record_session assign_number
mru-record_session s cwd m = ground arith

record_session-IsSound :
    (s : String) (cwd : Option String) (m : SessionManager)
    → IsSound m
    → IsSound (record_session s cwd m)
record_session-IsSound s cwd m x = record {
  numbered = record_session-IsNumbered s cwd m x.numbered;
  exclusive =
      IsExclusive-of_same m (record_session s cwd m) (mru-record_session s cwd m).1 x.exclusive;
  recency = subst IsDistinct (sym (mru-record_session s cwd m).0) x.recency;
}

visit-IsSound :
    (s : String) (cwd : Option String) (m : SessionManager) → IsSound m → IsSound (focus s cwd m)
unfolding focus touch_mru
visit-IsSound s cwd m x =
    let y = record_session-IsSound s cwd m x in
    IsSound-of_same (record_session s cwd m) (focus s cwd m)
      (record { numbers = refl; sessions = refl }) refl
      (touch-IsDistinct s (record_session s cwd m).mru y.recency) y

mru-pin : (o : Option String) (m : SessionManager) → IsDistinct m.mru → IsDistinct (pin o m).mru
unfolding pin touch_mru
mru-pin none m d = d
mru-pin (some s) m d = touch-IsDistinct s m.mru d

pin_same :
    (o : Option String) (m : SessionManager)
    → IsSameRoster m (pin o m) × ((pin o m).identities ≡ m.identities)
unfolding pin touch_mru
pin_same none m = (record { numbers = refl; sessions = refl }, refl)
pin_same (some s) m = (record { numbers = refl; sessions = refl }, refl)

pin-IsSound : (o : Option String) (m : SessionManager) → IsSound m → IsSound (pin o m)
pin-IsSound o m x =
    IsSound-of_same m (pin o m) (pin_same o m).0 (pin_same o m).1 (mru-pin o m x.recency) x

set_os_focus-IsSound :
    (program tty guid : String) (focused : Bool) (m : SessionManager)
    → IsSound m
    → IsSound (set_os_focus program tty guid focused m).0
unfolding set_os_focus resolve_os_focus
set_os_focus-IsSound program tty guid false m x =
    IsSound-of_same m (set_os_focus program tty guid false m).0
      (record { numbers = refl; sessions = refl }) refl x.recency x
set_os_focus-IsSound program tty guid true m x =
    let m' : SessionManager = record m { os_focus_raw = some (program, tty, guid) } in
    pin-IsSound _ m'
      (IsSound-of_same m m' (record { numbers = refl; sessions = refl }) refl x.recency x)

repair_focus-IsSound : (m : SessionManager) → IsSound m → IsSound (repair_focus m)
unfolding resolve_os_focus
repair_focus-IsSound m x = elim (Option-cases m.os_focused_session) [
  | inr (f, e) ↦ subst IsSound (sym (repair_focus-pinned m f e)) x
  | inl e ↦ elim (Option-cases m.os_focus_raw) [
    | inl e' ↦ subst IsSound (sym (repair_focus-unset m e e')) x
    | inr (raw, e') ↦ subst IsSound (sym (repair_focus-retry m raw e e')) (pin-IsSound _ m x)
  ]
]

mru-evict :
    (session tty : String) (m : SessionManager)
    → ((evict session tty m).mru ≡ m.mru) × IsSameRoster m (evict session tty m)
unfolding evict
mru-evict session tty m = (ground arith, record { numbers = ground arith; sessions = ground arith })

set_identity-IsSound :
    (session : String) (new : Identity) (m : SessionManager)
    → IsSound m
    → IsSound (set_identity session new m)
unfolding set_identity clear_quarantine store_identity
set_identity-IsSound session new m x =
    let m1 = clear_quarantine session m in
    let m2 = evict session new.tty m1 in
    let m3 = store_identity session new m2 in
    let (e, same) = mru-evict session new.tty m1 in
    repair_focus-IsSound m3 (record {
      numbered =
          IsNumbered-of_same m m3 (record { numbers = same.numbers; sessions = same.sessions })
            x.numbered;
      exclusive =
          store_identity-IsExclusive session new m2
            (evict-IsCleared session new.tty m1 (IsExclusive-of_same m m1 refl x.exclusive));
      recency = subst IsDistinct (sym e) x.recency;
    })

unregister-IsSound :
    (session : String) (m : SessionManager) → IsSound m → IsSound (unregister session m)
unfolding unregister
unregister-IsSound session m x = record {
  numbered = unregister-IsNumbered session m x.numbered;
  exclusive = record {
    unique = remove-IsUnique session m.identities x.exclusive.unique;
    alone = λ s t i j hs ht.
        x.exclusive.alone s t i j (ground (arith, hs, get-remove session s m.identities))
          (ground (arith, ht, get-remove session t m.identities));
  };
  recency = remove_first-IsDistinct session m.mru x.recency;
}

step-IsSound : (m : SessionManager) (op : Op) → IsSound m → IsSound (step m op)
unfolding step register set_foreground focus set_speaker claim_announce clear_quarantine
step-IsSound m (sees s cwd) x = record_session-IsSound s cwd m x
step-IsSound m (foregrounds s cwd) x = visit-IsSound s cwd m x
step-IsSound m (speaks s) x =
    IsSound-of_same m (set_speaker s m) (record { numbers = refl; sessions = refl }) refl x.recency
      x
step-IsSound m (focuses s cwd) x = visit-IsSound s cwd m x
step-IsSound m (announces s) x =
    IsSound-of_same m (claim_announce s m).0
      (record { numbers = ground arith; sessions = ground arith }) (ground arith)
      (ground (arith, x.recency)) x
step-IsSound m (identifies s i) x = set_identity-IsSound s i m x
step-IsSound m (signals program tty guid focused) x =
    set_os_focus-IsSound program tty guid focused m x
step-IsSound m (lifts s) x =
    IsSound-of_same m (clear_quarantine s m) (record { numbers = refl; sessions = refl }) refl
      x.recency x
step-IsSound m (ends s) x = unregister-IsSound s m x

pub init-IsSound : (policy : String) → IsSound (init policy)
unfolding Dict.get Dict.has
init-IsSound policy = record {
  numbered = record {
    unique = tt;
    owned = λ s t n h. absurd (cc h);
    positive = λ s n h. absurd (cc h);
    listed = λ s h. absurd (cc h);
  };
  exclusive = record { unique = tt; alone = λ s t i j h. absurd (cc h) };
  recency = tt;
}

pub run_keeps : (m : SessionManager) (ops : List Op) → IsSound m → IsSound (run m ops)
unfolding run
run_keeps m [] x = x
run_keeps m (op ∷ ops) x = run_keeps (step m op) ops (step-IsSound m op x)

-- After any sequence of these operations on a new manager that loads nothing, no number has two owners and each is at least 1, only
-- registered sessions have one, no tty has two claimants, and no session stands twice in the order of
-- visits.
pub roster_run-IsSound : (policy : String) (ops : List Op) → IsSound (run (init policy) ops)
roster_run-IsSound policy ops = run_keeps (init policy) ops (init-IsSound policy)
