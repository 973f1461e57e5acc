-- ===== src/Handlers/Teaching.antt =====
-- src/sonari/daemon/features/teaching.py. The timer that ends learn mode is `expire_learn_mode`, of which a stale
-- firing does nothing; its arming is left out.
use claude_tts.Prelude.{String, Bool, false, not, ◌||◌, none, some, if◌then◌else◌}
use claude_tts.Prelude.Dict
use claude_tts.Sessions.{workspace}
use claude_tts.Host.{Host, Env}
use claude_tts.Host.Kernel.{is_flowing}
use claude_tts.Handlers.{reply}
use claude_tts.Handlers.Jumps.{queues_decision}

module _ {A : Type 0} (env : Env A) where
  abbrev pub learn_text : Bool → String
  learn_text entering =
      if entering
      then "Learn mode. Press any Sonari key to hear what it does. Press the same key again to exit."
      else "Learn mode off."

  -- a control cue to the workspace, where there is one
  abbrev pub tell : String → Host A → Host A
  tell text h = elim (workspace h.sessions) [ none ↦ h | some ws ↦ reply env ws text h ]

  unfoldable pub on_learn_mode : Host A → Host A
  on_learn_mode h =
      tell (learn_text (not h.learn_mode)) (record h { learn_mode = not h.learn_mode })

  -- the end of learn mode by its timer; `live` where the timer is still the armed one
  unfoldable pub expire_learn_mode : Bool → Host A → Host A
  expire_learn_mode live h =
      let left = tell (learn_text false) (record h { learn_mode = false }) in
      if not h.learn_mode || not live then h else left

  abbrev pub has_decision : String → Host A → Bool
  has_decision session h =
      queues_decision (Dict.get session h.streams) || Dict.has session h.pending_decisions

  unfoldable pub on_query_actions : Host A → Host A
  on_query_actions h = elim (workspace h.sessions) [
    | none ↦ h
    | some ws ↦
        reply env ws
          (if has_decision ws h
            then "A decision is waiting. Control Command Return approves, Escape denies, O re-reads the options."
            else if not (is_flowing h.voice_state)
            then "Speech is stopped. Control Command S resumes this session."
            else "Control Command W says where you are. J jumps to a waiting session. Hold Tab on the chord to browse sessions.")
          h
  ]
