-- ===== src/Sessions/Lives.antt =====
-- The roster over the lives of the daemon: each life starts with a new manager that loads what the one
-- before it saved (`_load_state` of src/sonari/daemon/host.py), and runs any operations.
use claude_tts.Prelude.{
  String, ◌≡◌, refl, ap, sym, ◌∙◌, ◌||◌, Option, List, [], ◌∷◌, arith, Bool, not, is_some,
  by_option, by_test, if◌then◌else◌,
}
use mathlib.Core.Path.{subst}
use claude_tts.Prelude.Dict
use claude_tts.Prelude.Dict.{Dict, IsUnique, has-put, put-IsUnique, remove-IsUnique}
use claude_tts.Prelude.StrSet.{IsDistinct}
use claude_tts.Sessions.Text.{basename}
use claude_tts.Sessions.{
  Identity, SessionManager, init, number, record_session, assign_number, set_foreground,
  set_speaker, register, claim_announce, unregister, focus, touch_mru,
}
use claude_tts.Sessions.Terminal.{
  set_identity, set_os_focus, clear_quarantine, repair_focus, resolve_os_focus, pin, evict,
  store_identity,
}
use claude_tts.Sessions.State.{SavedSession, to_state, load_session, load_state}
use claude_tts.Sessions.Exclusive.{IsExclusive-of_same}
use claude_tts.Sessions.Restart.{restart_roster, has-saved}
use claude_tts.Sessions.Runs.{
  Op, sees, foregrounds, speaks, focuses, announces, identifies, signals, lifts, ends, step, run,
  IsSound, init-IsSound, run_keeps,
}

-- a new manager that has loaded what the last one saved
unfoldable pub reboot : String → SessionManager → SessionManager
unfolding to_state load_state
reboot policy m = load_state (to_state m) (init policy)

-- the roster behind the last of the lives, the first of which has nothing to load
unfoldable pub live_on : String → SessionManager → List (List Op) → SessionManager
unfolding reboot run
live_on policy m [] = m
live_on policy m (ops ∷ lives) = live_on policy (run (reboot policy m) ops) lives

repair_focus-sessions : (m : SessionManager) → (repair_focus m).sessions ≡ m.sessions
unfolding repair_focus resolve_os_focus pin touch_mru
repair_focus-sessions m = ground arith

evict-sessions : (s tty : String) (m : SessionManager) → (evict s tty m).sessions ≡ m.sessions
unfolding evict
evict-sessions s tty m = ground arith

record_session-sessions :
    (s : String) (cwd : Option String) (m : SessionManager)
    → (record_session s cwd m).sessions ≡ (
        if not (Dict.has s m.sessions)
        then Dict.put s (basename cwd) m.sessions
        else if is_some (basename cwd)
        then Dict.put s (basename cwd) m.sessions
        else m.sessions)
unfolding record_session assign_number
record_session-sessions s cwd m = ground arith

record_session-listed :
    (s : String) (cwd : Option String) (m : SessionManager)
    → IsUnique m.sessions
    → IsUnique (record_session s cwd m).sessions
record_session-listed s cwd m u =
    let put = put-IsUnique s (basename cwd) m.sessions u in
    subst IsUnique (sym (record_session-sessions s cwd m)) (
      by_test IsUnique (not (Dict.has s m.sessions)) (Dict.put s (basename cwd) m.sessions)
        (if is_some (basename cwd) then Dict.put s (basename cwd) m.sessions else m.sessions)
        (λ _. put)
        (λ _.
          by_test IsUnique (is_some (basename cwd)) (Dict.put s (basename cwd) m.sessions)
            m.sessions (λ _. put) (λ _. u)))

announced-sessions :
    (s : String) (m : SessionManager) → (claim_announce s m).0.sessions ≡ m.sessions
unfolding claim_announce
announced-sessions s m = ground arith

set_identity-sessions :
    (s : String) (i : Identity) (m : SessionManager) → (set_identity s i m).sessions ≡ m.sessions
unfolding set_identity store_identity clear_quarantine
set_identity-sessions s i m =
    repair_focus-sessions (store_identity s i (evict s i.tty (clear_quarantine s m)))
    ∙ evict-sessions s i.tty (clear_quarantine s m)

set_os_focus-sessions :
    (program tty guid : String) (focused : Bool) (m : SessionManager)
    → (set_os_focus program tty guid focused m).0.sessions ≡ m.sessions
unfolding set_os_focus resolve_os_focus pin touch_mru
set_os_focus-sessions program tty guid focused m = ground arith

step-listed : (m : SessionManager) (op : Op) → IsUnique m.sessions → IsUnique (step m op).sessions
unfolding step register set_foreground focus set_speaker clear_quarantine unregister
step-listed m (sees s cwd) u = record_session-listed s cwd m u
step-listed m (foregrounds s cwd) u = record_session-listed s cwd m u
step-listed m (speaks s) u = u
step-listed m (focuses s cwd) u = record_session-listed s cwd m u
step-listed m (announces s) u = subst IsUnique (sym (announced-sessions s m)) u
step-listed m (identifies s i) u = subst IsUnique (sym (set_identity-sessions s i m)) u
step-listed m (signals program tty guid focused) u =
    subst IsUnique (sym (set_os_focus-sessions program tty guid focused m)) u
step-listed m (lifts s) u = u
step-listed m (ends s) u = remove-IsUnique s m.sessions u

run-listed :
    (m : SessionManager) (ops : List Op) → IsUnique m.sessions → IsUnique (run m ops).sessions
unfolding run
run-listed m [] u = u
run-listed m (op ∷ ops) u = run-listed (step m op) ops (step-listed m op u)

-- what loading leaves alone, and keeps
record IsLoaded (m m' : SessionManager) : Type 0 where
  identities : m'.identities ≡ m.identities
  mru : m'.mru ≡ m.mru
  listed : IsUnique m.sessions → IsUnique m'.sessions
  numbered : IsUnique m.numbers → IsUnique m'.numbers

load_session-IsLoaded :
    (m : SessionManager) (e : String × SavedSession) → IsLoaded m (load_session m e)
unfolding load_session
load_session-IsLoaded m (s, sd) = record {
  identities = refl;
  mru = refl;
  listed = λ u. put-IsUnique s sd.folder m.sessions u;
  numbered = λ u.
      by_option IsUnique sd.number m.numbers (λ n. Dict.put s n m.numbers) (λ _. u)
        (λ n _. put-IsUnique s n m.numbers u);
}

load-IsLoaded : (d : Dict SavedSession) (m : SessionManager) → IsLoaded m (load_state d m)
unfolding load_state
load-IsLoaded [] m = record { identities = refl; mru = refl; listed = λ u. u; numbered = λ u. u }
load-IsLoaded (e ∷ d) m =
    let x = load_session-IsLoaded m e in
    let y = load-IsLoaded d (load_session m e) in
    record {
      identities = y.identities ∙ x.identities;
      mru = y.mru ∙ x.mru;
      listed = λ u. y.listed (x.listed u);
      numbered = λ u. y.numbered (x.numbered u);
    }

has-load :
    (d : Dict SavedSession) (m : SessionManager) (s : String)
    → Dict.has s (load_state d m).sessions ≡ (Dict.has s d || Dict.has s m.sessions)
unfolding load_state load_session Dict.get Dict.has
has-load [] m s = refl
has-load ((t, sd) ∷ d) m s =
    has-load d (load_session m (t, sd)) s ∙ ground (arith, has-put t s sd.folder m.sessions)

-- a manager that is sound, and lists no session twice
abbrev IsKept : SessionManager → Type 0
IsKept m = IsSound m × IsUnique m.sessions

reboot-number :
    (policy : String) (m : SessionManager) (s : String)
    → IsKept m
    → Dict.get s (reboot policy m).numbers ≡ Dict.get s m.numbers
unfolding reboot number
reboot-number policy m s (x, u) = (restart_roster policy m s x.numbered u).1

reboot-listed :
    (policy : String) (m : SessionManager) (s : String)
    → Dict.has s (reboot policy m).sessions ≡ Dict.has s m.sessions
unfolding reboot to_state Dict.has
reboot-listed policy m s =
    has-load (to_state m) (init policy) s ∙ ground (arith, has-saved m s m.sessions)

reboot-IsKept : (policy : String) (m : SessionManager) → IsKept m → IsKept (reboot policy m)
unfolding reboot Dict.has
reboot-IsKept policy m kept =
    let m' = reboot policy m in
    let new = init-IsSound policy in
    let loaded = load-IsLoaded (to_state m) (init policy) in
    let same : (s : String) → Dict.get s m'.numbers ≡ Dict.get s m.numbers =
      λ s. reboot-number policy m s kept in
    (
      record {
        numbered = record {
          unique = loaded.numbered tt;
          owned =
              λ s t n hs ht. kept.0.numbered.owned s t n (sym (same s) ∙ hs) (sym (same t) ∙ ht);
          positive = λ s n h. kept.0.numbered.positive s n (sym (same s) ∙ h);
          listed = λ s h.
              reboot-listed policy m s ∙ kept.0.numbered.listed s (ap is_some (sym (same s)) ∙ h);
        };
        exclusive = IsExclusive-of_same (init policy) m' loaded.identities new.exclusive;
        recency = subst IsDistinct (sym loaded.mru) new.recency;
      },
      loaded.listed tt,
    )

live_on-IsKept :
    (policy : String) (m : SessionManager) (lives : List (List Op))
    → IsKept m
    → IsKept (live_on policy m lives)
unfolding live_on
live_on-IsKept policy m [] kept = kept
live_on-IsKept policy m (ops ∷ lives) kept =
    let (x, u) = reboot-IsKept policy m kept in
    live_on-IsKept policy (run (reboot policy m) ops) lives
      (run_keeps (reboot policy m) ops x, run-listed (reboot policy m) ops u)

-- Over any number of lives of the daemon, each of which loads into a new manager what the one before it saved and
-- then runs any operations: no number has two owners and each is at least 1, only registered sessions have one,
-- no tty has two claimants, and no session stands twice in the order of visits or in the roster. The first life has
-- nothing to load.
pub lives-IsSound :
    (policy : String) (lives : List (List Op))
    → IsSound (live_on policy (init policy) lives)
      × IsUnique (live_on policy (init policy) lives).sessions
lives-IsSound policy lives = live_on-IsKept policy (init policy) lives (init-IsSound policy, tt)
