-- ===== src/Cues.antt =====
-- src/sonari/cues.py: the registry of the sounds, by name and tier.
use claude_tts.Prelude.{String, Bool, true, false, Option, some, [], ◌∷◌}
use claude_tts.Prelude.Dict
use claude_tts.Prelude.Dict.{Dict}

pub data Tier : Type 0 where
  transient prelude queued alarm : Tier

abbrev pub cues : Dict Tier
cues =
    ("turn_done", transient)
    ∷ ("choice", transient)
    ∷ ("plan", transient)
    ∷ ("permission", transient)
    ∷ ("error", transient)
    ∷ ("error_misdirected", transient)
    ∷ ("error_system", transient)
    ∷ ("permission_expired", transient)
    ∷ ("submit_ack", transient)
    ∷ ("repoint", transient)
    ∷ ("pitch_up", prelude)
    ∷ ("pitch_down", prelude)
    ∷ ("callsign", prelude)
    ∷ ("crossing", prelude)
    ∷ ("speech", queued)
    ∷ ("summary_voice", queued)
    ∷ ("alarm_daemon_down", alarm)
    ∷ ("alarm_hotkeys_down", alarm)
    ∷ []

abbrev pub is_transient_tier : Option Tier → Bool
is_transient_tier (some transient) = true
is_transient_tier _ = false

-- the names that `cue` takes
unfoldable pub is_transient : String → Bool
is_transient kind = is_transient_tier (Dict.get kind cues)
