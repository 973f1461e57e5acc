-- ===== src/Sessions/Terminal.antt =====
-- The terminals of the roster in src/sonari/sessions.py: identities, the claim on a tty, liveness, and
-- the session under the keyboard focus. `exists` stands for `os.path.exists` (src/sonari/ttyutil.py);
-- a probe that raises `OSError` gives `none`.
use claude_tts.Prelude.{
  String, Bool, true, false, not, ◌&&◌, Option, none, some, List, [], ◌∷◌, str_eq, if◌then◌else◌,
}
use claude_tts.Prelude.Dict
use claude_tts.Prelude.Dict.{Dict}
use claude_tts.Prelude.StrSet
use claude_tts.Sessions.{Identity, SessionManager, is_session, touch_mru, workspace}
use claude_tts.Sessions.Text.{truthy, or_text, bare_iterm_guid}

-- whose claims a loop has cleared, and where the focus then is
pub record Claims : Type 0 where
  pub identities : Dict Identity
  pub tty_evicted : List String
  pub os_focused : Option String

-- `other != session and ident.tty == identity.tty`
abbrev pub loses : String → String → String → Identity → Bool
loses session tty other ident = not (str_eq other session) && str_eq ident.tty tty

-- the loop of `set_identity`: every other claimant of the tty loses it
unfoldable pub claim_tty : String → String → List String → Option String → Dict Identity → Claims
claim_tty session tty evicted focused [] = record {
  identities = [];
  tty_evicted = evicted;
  os_focused = focused;
}
claim_tty session tty evicted focused ((other, ident) ∷ rest) =
    let hit = loses session tty other ident in
    let later =
      claim_tty session tty (if hit then StrSet.add other evicted else evicted)
        (if hit && is_session focused other then some session else focused) rest in
    record later {
      identities = (other, if hit then record ident { tty = "" } else ident) ∷ later.identities;
    }

-- the loops of `_resolve_os_focus`: the first session that was not evicted and passes the test
unfoldable pub find_session : (Identity → Bool) → List String → Dict Identity → Option String
find_session test evicted [] = none
find_session test evicted ((sess, ident) ∷ rest) =
    let later = find_session test evicted rest in
    if StrSet.has sess evicted then later else if test ident then some sess else later

abbrev pub on_tty : String → Identity → Bool
on_tty tty ident = truthy ident.tty && str_eq ident.tty tty

abbrev pub on_iterm : String → Identity → Bool
on_iterm id ident =
    truthy ident.iterm_session_id
    && str_eq (bare_iterm_guid ident.iterm_session_id) (bare_iterm_guid id)

unfoldable pub match_focus : SessionManager → String × String × String → Option String
unfolding find_session
match_focus m (term_program, tty, iterm_session_id) =
    if str_eq term_program "Apple_Terminal" && truthy tty
    then find_session (on_tty tty) m.tty_evicted m.identities
    else if str_eq term_program "iTerm.app" && truthy iterm_session_id
    then find_session (on_iterm iterm_session_id) m.tty_evicted m.identities
    else none

-- `self._os_focused_session = match`, and the visit of a session that was matched
unfoldable pub pin : Option String → SessionManager → SessionManager
unfolding touch_mru
pin none m = record m { os_focused_session = none }
pin (some s) m = touch_mru s (record m { os_focused_session = some s })

unfoldable pub resolve_os_focus : String × String × String → SessionManager → SessionManager
unfolding match_focus pin
resolve_os_focus raw m = pin (match_focus m raw) m

-- the eviction of `set_identity`, under `if identity.tty`
unfoldable pub evict : String → String → SessionManager → SessionManager
unfolding claim_tty
evict session tty m =
    if truthy tty
    then (let c = claim_tty session tty m.tty_evicted m.os_focused_session m.identities in
        record m {
          identities = c.identities;
          tty_evicted = StrSet.discard session c.tty_evicted;
          os_focused_session = c.os_focused;
        })
    else m

-- an empty field keeps what was there
abbrev pub merge : Option Identity → Identity → Identity
merge none identity = identity
merge (some existing) identity = record {
  term_program = or_text identity.term_program existing.term_program;
  tty = or_text identity.tty existing.tty;
  iterm_session_id = or_text identity.iterm_session_id existing.iterm_session_id;
}

unfoldable pub store_identity : String → Identity → SessionManager → SessionManager
store_identity session identity m = record m {
  identities = Dict.put session (merge (Dict.get session m.identities) identity) m.identities;
}

-- the late repair: only where there is no pin and a signal was kept
unfoldable pub repair_focus : SessionManager → SessionManager
unfolding resolve_os_focus
repair_focus m = elim m.os_focused_session [
  | some s ↦ m
  | none ↦ elim m.os_focus_raw [ none ↦ m | some raw ↦ resolve_os_focus raw m ]
]

unfoldable pub clear_quarantine : String → SessionManager → SessionManager
clear_quarantine session m = record m { provisional = StrSet.discard session m.provisional }

unfoldable pub set_identity : String → Identity → SessionManager → SessionManager
unfolding clear_quarantine evict store_identity repair_focus
set_identity session identity m =
    repair_focus
      (store_identity session identity (evict session identity.tty (clear_quarantine session m)))

unfoldable pub identity : SessionManager → String → Option Identity
identity m session = Dict.get session m.identities

unfoldable pub tty_alive : (String → Option Bool) → String → Bool
tty_alive exists tty =
    if not (truthy tty) then true else elim (exists tty) [ none ↦ true | some b ↦ b ]

pub data Liveness : Type 0 where
  live pending dead : Liveness

abbrev pub tty_of : Option Identity → String
tty_of none = ""
tty_of (some ident) = ident.tty

unfoldable pub liveness : (String → Option Bool) → SessionManager → String → Liveness
unfolding tty_alive
liveness exists m session =
    let tty = tty_of (Dict.get session m.identities) in
    if StrSet.has session m.provisional
    then pending
    else if StrSet.has session m.tty_evicted
    then dead
    else if truthy tty && not (tty_alive exists tty)
    then dead
    else live

unfoldable pub is_live : (String → Option Bool) → SessionManager → String → Bool
unfolding liveness
is_live exists m session = elim (liveness exists m session) [ live ↦ true | _ ↦ false ]

abbrev pub same_session : Option String → Option String → Bool
same_session none none = true
same_session (some s) (some t) = str_eq s t
same_session _ _ = false

unfoldable pub set_os_focus :
    String → String → String → Bool → SessionManager → SessionManager × Bool
unfolding resolve_os_focus
set_os_focus term_program tty iterm_session_id focused m =
    let raw : String × String × String = (term_program, tty, iterm_session_id) in
    let m' : SessionManager =
      if not focused
      then record m { os_focus_raw = none; os_focused_session = none }
      else resolve_os_focus raw (record m { os_focus_raw = some raw }) in
    (m', not (same_session (workspace m') (workspace m)))

unfoldable pub is_provisional : SessionManager → String → Bool
is_provisional m session = StrSet.has session m.provisional
