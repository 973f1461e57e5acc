-- ===== src/Sessions/State.antt =====
-- `SessionManager.to_state` and `load_state` of src/sonari/sessions.py. The saved form is the JSON value
-- that crosses the restart; a missing field reads as `None`, which is what `get` returns for it.
use claude_tts.Prelude.{ℕ, String, Option, none, some, map}
use claude_tts.Prelude.Dict
use claude_tts.Prelude.Dict.{Dict}
use claude_tts.Prelude.StrSet
use claude_tts.Sessions.{SessionManager}
use mathlib.Core.List.{foldl}

pub record SavedSession : Type 0 where
  pub folder : Option String
  pub number : Option ℕ

unfoldable pub save_session : SessionManager → String × Option String → String × SavedSession
save_session m (s, folder) =
    (s, record { folder = Dict.get_or s none m.sessions; number = Dict.get s m.numbers })

unfoldable pub to_state : SessionManager → Dict SavedSession
unfolding save_session
to_state m = map (save_session m) m.sessions

unfoldable pub load_session : SessionManager → String × SavedSession → SessionManager
load_session m (s, sd) = record m {
  sessions = Dict.put s sd.folder m.sessions;
  numbers = elim sd.number [ none ↦ m.numbers | some num ↦ Dict.put s num m.numbers ];
  provisional = StrSet.add s m.provisional;
}

unfoldable pub load_state : Dict SavedSession → SessionManager → SessionManager
unfolding load_session
load_state saved m = foldl load_session m saved
