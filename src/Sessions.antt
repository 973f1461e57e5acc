-- ===== src/Sessions.antt =====
-- src/sonari/sessions.py: `Identity` and `SessionManager`, the roster of sessions. `exists` stands for
-- `os.path.exists`; a probe that raises `OSError` gives `none`.
pub mod Text
pub mod Terminal
pub mod State
pub mod Numbers
mod Claim
pub mod Exclusive
pub mod Focus
pub mod Runs
pub mod Lives
pub mod Restart
pub mod Ending
mod Tests
use claude_tts.Prelude.{
  ℕ, zero, suc, ◌+◌, String, Bool, true, false, not, ◌&&◌, Option, none, some, List, [], ◌∷◌, map,
  length, str_eq, ◌==◌, if◌then◌else◌, is_some,
}
use claude_tts.Prelude.Dict
use claude_tts.Prelude.Dict.{Dict}
use claude_tts.Prelude.StrSet
use Text.{truthy, or_text, basename, bare_iterm_guid}
use mathlib.Core.List.{foldl}
use mathlib.Core.Option

pub record Identity : Type 0 where
  pub term_program : String
  pub tty : String
  pub iterm_session_id : String

pub record SessionManager : Type 0 where
  pub background_policy : String
  pub sessions : Dict (Option String)
  pub foreground : Option String
  pub speaker : Option String
  pub os_focused_session : Option String
  pub os_focus_raw : Option (String × String × String)
  pub identities : Dict Identity
  pub tty_evicted : List String
  pub numbers : Dict ℕ
  pub mru : List String
  pub provisional : List String
  pub announced : List String

abbrev pub init : String → SessionManager
init policy = record {
  background_policy = policy;
  sessions = [];
  foreground = none;
  speaker = none;
  os_focused_session = none;
  os_focus_raw = none;
  identities = [];
  tty_evicted = [];
  numbers = [];
  mru = [];
  provisional = [];
  announced = [];
}

-- `self._x == session` for an optional session id
abbrev pub is_session : Option String → String → Bool
is_session none s = false
is_session (some t) s = str_eq t s

-- `x in set` on numbers
unfoldable pub mem : ℕ → List ℕ → Bool
mem n [] = false
mem n (m ∷ ms) = let rest = mem n ms in if m == n then true else rest

-- `while n in used: n += 1`; the fuel is one more than there are numbers in use
unfoldable pub lowest_free : ℕ → List ℕ → ℕ → ℕ
unfolding mem
lowest_free zero used n = n
lowest_free (suc fuel) used n =
    let up = lowest_free fuel used (n + 1) in if mem n used then up else n

abbrev pub values : Dict ℕ → List ℕ
values = map (λ e. e.1)

-- what the loop of `_assign_number` ends at
unfoldable pub next_number : SessionManager → ℕ
unfolding lowest_free
next_number m = lowest_free (suc (length m.numbers)) (values m.numbers) 1

unfoldable pub assign_number : String → SessionManager → SessionManager
unfolding next_number
assign_number session m =
    if Dict.has session m.numbers
    then m
    else record m { numbers = Dict.put session (next_number m) m.numbers }

unfoldable pub record_session : String → Option String → SessionManager → SessionManager
unfolding assign_number
record_session session cwd m =
    let folder = basename cwd in
    assign_number session (record m {
      sessions =
          if not (Dict.has session m.sessions)
          then Dict.put session folder m.sessions
          else if is_some folder
          then Dict.put session folder m.sessions
          else m.sessions;
    })

unfoldable pub touch_mru : String → SessionManager → SessionManager
touch_mru session m = record m { mru = session ∷ StrSet.remove_first session m.mru }

unfoldable pub number : SessionManager → String → Option ℕ
number m session = Dict.get session m.numbers

-- the loop of `session_for_number`
pub number_owner : ℕ → Dict ℕ → Option String
number_owner n [] = none
number_owner n ((s, num) ∷ d) = let rest = number_owner n d in if num == n then some s else rest

unfoldable pub session_for_number : SessionManager → ℕ → Option String
unfolding number_owner
session_for_number m n = number_owner n m.numbers

unfoldable pub set_foreground : String → Option String → SessionManager → SessionManager
unfolding record_session touch_mru
set_foreground session cwd m =
    touch_mru session
      (record (record_session session cwd m) { foreground = some session; speaker = some session })

unfoldable pub set_speaker : String → SessionManager → SessionManager
set_speaker session m = record m { speaker = some session }

unfoldable pub focused_session : SessionManager → Option String
focused_session m = elim m.os_focused_session [
  | none ↦ none
  | some s ↦ if Dict.has s m.sessions then some s else none
]

unfoldable pub workspace : SessionManager → Option String
unfolding focused_session
workspace m = elim (focused_session m) [
  | none ↦ m.foreground
  | some s ↦ if truthy s then some s else m.foreground
]

unfoldable pub session_ids : SessionManager → List String
session_ids m = Dict.keys m.sessions

unfoldable pub is_foreground : SessionManager → String → Bool
is_foreground m session = is_session m.foreground session

unfoldable pub should_speak : SessionManager → String → Bool
unfolding is_foreground
should_speak m session = is_foreground m session

unfoldable pub register : String → Option String → SessionManager → SessionManager
unfolding record_session
register session cwd m = record_session session cwd m

unfoldable pub claim_announce : String → SessionManager → SessionManager × Bool
claim_announce session m =
    if StrSet.has session m.announced
    then (m, false)
    else (record m { announced = StrSet.add session m.announced }, true)

-- `if self._x == session: self._x = None`
abbrev pub clear_if : String → Option String → Option String
clear_if session o = if is_session o session then none else o

unfoldable pub unregister : String → SessionManager → SessionManager
unregister session m = record m {
  sessions = Dict.remove session m.sessions;
  identities = Dict.remove session m.identities;
  tty_evicted = StrSet.discard session m.tty_evicted;
  provisional = StrSet.discard session m.provisional;
  numbers = Dict.remove session m.numbers;
  announced = StrSet.discard session m.announced;
  mru = StrSet.remove_first session m.mru;
  foreground = clear_if session m.foreground;
  speaker = clear_if session m.speaker;
  os_focused_session = clear_if session m.os_focused_session;
}

-- `self._sessions.get(session)`: an unknown session and one with no folder read alike
unfoldable pub folder : SessionManager → String → Option String
folder m session = Dict.get_or session none m.sessions

unfoldable pub focus : String → Option String → SessionManager → SessionManager
unfolding record_session touch_mru
focus session cwd m =
    touch_mru session
      (record (record_session session cwd m) { foreground = some session; speaker = some session })
