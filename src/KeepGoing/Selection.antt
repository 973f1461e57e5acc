-- ===== src/KeepGoing/Selection.antt =====
-- `_select_keep_going` and `_release_dead_speaker` of src/sonari/daemon/host.py.
use claude_tts.Prelude.{
  ℕ, String, ◌≤◌, ◌≡◌, ◌⊎◌, inl, inr, Bool, true, false, not, ◌||◌, Option, none, some, List, [],
  ◌∷◌, arith, str_eq, eq_iff, Bool-cases, Option-cases,
}
use claude_tts.Prelude.Dict.{Dict}
use claude_tts.Sessions.{is_session}
use claude_tts.Sessions.Terminal.{liveness}
use claude_tts.SessionStream.{SessionStream}
use claude_tts.Host.{Host}
use claude_tts.KeepGoing.{is_dead, stream_quiescent, release_dead_speaker}

-- the id of an entry, where it has one, is not below `n`
abbrev pub AtLeast : ℕ → Option ℕ → Type 0
AtLeast n none = Unit
AtLeast n (some k) = n ≤ k

-- an entry of the list has this name and this id
abbrev pub Offers : List (String × Option ℕ) → String → ℕ → Type 0
Offers [] s n = ⊥
Offers (c ∷ cs) s n = ((c.0 ≡ s) × (c.1 ≡ some n)) ⊎ Offers cs s n

module _ {A : Type 0} (has_pending : A → Bool) (exists : String → Option Bool) where
  -- At the pop boundary: where the voice is given back the speaker was dead, and then nobody has the voice and
  -- the rest of the roster and all queues are as they were; where it is kept, the speaker is not dead,
  -- or its stream, with something left to voice, was re-opened by a press.
  pub release_dead_speaker_lem :
      (host : Host A) (f : String) (st : Option (SessionStream A))
      → (((release_dead_speaker has_pending exists host (some f) st).1 ≡ true)
          × (is_dead (liveness exists host.sessions f) ≡ true)
          × ((release_dead_speaker has_pending exists host (some f) st).0.sessions
              ≡ record host.sessions { speaker = none })
          × ((release_dead_speaker has_pending exists host (some f) st).0.streams ≡ host.streams))
        ⊎ (((release_dead_speaker has_pending exists host (some f) st).1 ≡ false)
            × ((release_dead_speaker has_pending exists host (some f) st).0.sessions
                ≡ host.sessions)
            × ((is_dead (liveness exists host.sessions f) ≡ false)
                ⊎ ((is_session host.deliberate_dead_read f ≡ true)
                    × (stream_quiescent has_pending exists st ≡ false))))
  unfolding release_dead_speaker
  release_dead_speaker_lem host f st =
      elim (Bool-cases (is_dead (liveness exists host.sessions f))) [
        | inl e ↦ elim (Option-cases host.deliberate_dead_read) [
          | inl none_marked ↦ inl (
            ground (arith, e, none_marked),
            e,
            ground (arith, e, none_marked),
            ground (arith, e, none_marked),
          )
          | inr (s, marked) ↦
              elim (Bool-cases (not (str_eq f s) || stream_quiescent has_pending exists st)) [
                | inl lapsed ↦ inl (
                  ground (arith, e, marked, lapsed),
                  e,
                  ground (arith, e, marked, lapsed),
                  ground (arith, e, marked, lapsed),
                )
                | inr kept ↦ inr (
                  ground (arith, e, marked, kept, eq_iff f s, eq_iff s f),
                  ground (arith, e, marked, kept, eq_iff f s, eq_iff s f),
                  inr (
                    ground (arith, e, marked, kept, eq_iff f s, eq_iff s f),
                    ground (arith, kept),
                  ),
                )
              ]
        ]
        | inr e ↦ inr (ground (arith, e), ground (arith, e), inl e)
      ]
