-- ===== src/Sessions/Ending.antt =====
-- The end of a session, and the announcement that is made once in its life.
use claude_tts.Prelude.{
  String, ◌≡◌, ap, ◌∙◌, Bool, true, false, Option, none, some, eq_iff, List, [], ◌∷◌, arith, str_eq,
  All, str_eq_refl,
}
use claude_tts.Prelude.Dict
use claude_tts.Prelude.Dict.{get-remove, get_or-remove, has-remove}
use claude_tts.Prelude.StrSet
use claude_tts.Prelude.StrSet.{has-add, has-discard, has-remove_first, IsDistinct}
use claude_tts.Sessions.{
  SessionManager, is_session, clear_if, number, folder, unregister, claim_announce, register,
  set_foreground, focus, set_speaker, record_session, assign_number, touch_mru,
}
use claude_tts.Sessions.Terminal.{
  identity, is_provisional, set_identity, set_os_focus, clear_quarantine, evict, store_identity,
  repair_focus, resolve_os_focus, pin, liveness,
}
use claude_tts.Sessions.Runs.{
  Op, sees, foregrounds, speaks, focuses, announces, identifies, signals, lifts, ends, step, run,
}

-- Nothing of a session is left.
pub record IsForgotten (session : String) (m : SessionManager) : Type 0 where
  pub unlisted : Dict.has session m.sessions ≡ false
  pub number : number m session ≡ none
  pub folder : folder m session ≡ none
  pub identity : identity m session ≡ none
  pub confirmed : is_provisional m session ≡ false
  pub kept_tty : StrSet.has session m.tty_evicted ≡ false
  pub unannounced : StrSet.has session m.announced ≡ false
  pub unvisited : StrSet.has session m.mru ≡ false
  pub foreground : is_session m.foreground session ≡ false
  pub speaker : is_session m.speaker session ≡ false
  pub focus : is_session m.os_focused_session session ≡ false

-- What the roster says of a session is the same in both.
pub record IsSameFor (exists : String → Option Bool) (s : String) (m m' : SessionManager)
    : Type 0 where
  pub number : number m' s ≡ number m s
  pub folder : folder m' s ≡ folder m s
  pub identity : identity m' s ≡ identity m s
  pub liveness : liveness exists m' s ≡ liveness exists m s
  pub announced : StrSet.has s m'.announced ≡ StrSet.has s m.announced
  pub listed : Dict.has s m'.sessions ≡ Dict.has s m.sessions
  pub provisional : is_provisional m' s ≡ is_provisional m s
  pub visited : StrSet.has s m'.mru ≡ StrSet.has s m.mru
  pub foreground : is_session m'.foreground s ≡ is_session m.foreground s
  pub speaker : is_session m'.speaker s ≡ is_session m.speaker s
  pub focus : is_session m'.os_focused_session s ≡ is_session m.os_focused_session s

is_session-clear_if :
    (session s : String) (o : Option String)
    → str_eq session s ≡ false
    → is_session (clear_if session o) s ≡ is_session o s
is_session-clear_if session s none ne = ground arith
is_session-clear_if session s (some t) ne =
    ground (arith, ne, eq_iff t session, eq_iff t s, eq_iff session s)

-- Unregistering a session leaves nothing of it, and leaves what is known of any other session as it was: its
-- place in the roster, its folder, number, identity, liveness and marks, and whether it is the
-- foreground, the speaker or the one with the keyboard focus.
pub unregister_lem :
    (exists : String → Option Bool) (session : String) (m : SessionManager)
    → IsDistinct m.mru
    → IsForgotten session (unregister session m)
      × ((s : String) → str_eq session s ≡ false → IsSameFor exists s m (unregister session m))
unfolding unregister number folder identity is_provisional liveness
unregister_lem exists session m d = (
  record {
    unlisted = has-remove session session m.sessions ∙ simp str_eq_refl;
    number = get-remove session session m.numbers ∙ simp str_eq_refl;
    folder = get_or-remove session session none m.sessions ∙ simp str_eq_refl;
    identity = get-remove session session m.identities ∙ simp str_eq_refl;
    confirmed = has-discard session session m.provisional ∙ simp str_eq_refl;
    kept_tty = has-discard session session m.tty_evicted ∙ simp str_eq_refl;
    unannounced = has-discard session session m.announced ∙ simp str_eq_refl;
    unvisited = has-remove_first session session m.mru d ∙ simp str_eq_refl;
    foreground = ground arith;
    speaker = ground arith;
    focus = ground arith;
  },
  λ s ne. record {
    number = get-remove session s m.numbers ∙ simp ne;
    folder = get_or-remove session s none m.sessions ∙ simp ne;
    identity = get-remove session s m.identities ∙ simp ne;
    liveness = ground (
      arith,
      has-discard session s m.provisional,
      has-discard session s m.tty_evicted,
      get-remove session s m.identities,
      ne,
    );
    announced = has-discard session s m.announced ∙ simp ne;
    listed = has-remove session s m.sessions ∙ simp ne;
    provisional = has-discard session s m.provisional ∙ simp ne;
    visited = has-remove_first session s m.mru d ∙ simp ne;
    foreground = is_session-clear_if session s m.foreground ne;
    speaker = is_session-clear_if session s m.speaker ne;
    focus = is_session-clear_if session s m.os_focused_session ne;
  },
)

-- the operation is not the end of `s`
abbrev pub is_end_of : String → Op → Bool
is_end_of s (ends t) = str_eq t s
is_end_of s _ = false

announced-repair_focus : (m : SessionManager) → (repair_focus m).announced ≡ m.announced
unfolding repair_focus resolve_os_focus pin touch_mru
announced-repair_focus m = ground arith

announced-step :
    (m : SessionManager) (op : Op) (s : String)
    → is_end_of s op ≡ false
    → StrSet.has s m.announced ≡ true
    → StrSet.has s (step m op).announced ≡ true
unfolding step register set_foreground focus set_speaker claim_announce clear_quarantine
    record_session assign_number touch_mru set_identity evict store_identity set_os_focus
    resolve_os_focus pin unregister
announced-step m (sees t cwd) s e h = ground (arith, h)
announced-step m (foregrounds t cwd) s e h = ground (arith, h)
announced-step m (speaks t) s e h = h
announced-step m (focuses t cwd) s e h = ground (arith, h)
announced-step m (announces t) s e h = ground (arith, has-add t s m.announced)
announced-step m (identifies t i) s e h =
    ap (StrSet.has s)
      (announced-repair_focus (store_identity t i (evict t i.tty (clear_quarantine t m))))
    ∙ ground (arith, h)
announced-step m (signals program tty guid focused) s e h = ground (arith, h)
announced-step m (lifts t) s e h = h
announced-step m (ends t) s e h = ground (arith, has-discard t s m.announced, e)

announced-run :
    (m : SessionManager) (ops : List Op) (s : String)
    → All (λ op. is_end_of s op ≡ false) ops
    → StrSet.has s m.announced ≡ true
    → StrSet.has s (run m ops).announced ≡ true
unfolding run
announced-run m [] s a h = h
announced-run m (op ∷ ops) s (e, a) h =
    announced-run (step m op) ops s a (announced-step m op s e h)

-- The first claim of a session's announcement is granted, and after a claim no further one is, whatever
-- operations come between, until the session ends.
pub announce_once :
    (m : SessionManager) (ops : List Op) (s : String)
    → StrSet.has s m.announced ≡ false
    → All (λ op. is_end_of s op ≡ false) ops
    → ((claim_announce s m).1 ≡ true)
      × ((claim_announce s (run (claim_announce s m).0 ops)).1 ≡ false)
unfolding claim_announce
announce_once m ops s fresh a =
    let there : StrSet.has s (StrSet.add s m.announced) ≡ true =
      has-add s s m.announced ∙ simp str_eq_refl in
    (
      ground (arith, fresh),
      ground (arith, announced-run (claim_announce s m).0 ops s a (ground (arith, fresh, there))),
    )
