-- ===== src/Host/Calls.antt =====
-- The operations of Host/Kernel.antt that the handlers share, as moves of the host.
use claude_tts.Prelude.{
  ◌≡◌, inl, inr, refl, ap, ◌∙◌, Bool, true, false, not, Option, none, some, List, [], ◌∷◌, ◌++◌,
  arith, if◌then◌else◌, String, length, leb,
}
use claude_tts.Prelude.Dict
use claude_tts.SpeechQueue.{SpeechQueue}
use claude_tts.SpeechQueue.Copies.{copies, Fewer}
use claude_tts.SessionStream.{SessionStream}
use claude_tts.History.{HistoryEntry}
use claude_tts.Cues.{is_transient}
use claude_tts.Host.{Host, Env, cue_ask, forward_ask}
use claude_tts.Host.Kernel.{
  stream, put_stream, enqueue, flush_loop, flush_prose_buffer, buffer_prose, minqueue, cue,
  is_stopped_all,
}
use claude_tts.Host.Moves.{Moves, edits, puts, asks}

module _ {A : Type 0} (env : Env A) (l a f : Bool) {h : Host A} where
  -- One branch or the other.
  pub either :
      (b : Bool) (k k' : Host A)
      → Moves env l a f h k
      → Moves env l a f h k'
      → Moves env l a f h (if b then k else k')
  either true k k' p q = p
  either false k k' p q = q

  -- the same, with what each branch may take for granted
  pub branch :
      (b : Bool) (k k' : Host A)
      → (b ≡ true → Moves env l a f h k)
      → (b ≡ false → Moves env l a f h k')
      → Moves env l a f h (if b then k else k')
  branch true k k' p q = p refl
  branch false k k' p q = q refl

  pub case_of {ℓ} :
      {X : Type ℓ} (o : Option X) (k : Host A) (g : X → Host A)
      → Moves env l a f h k
      → ((x : X) → o ≡ some x → Moves env l a f h (g x))
      → Moves env l a f h (elim o [ none ↦ k | some x ↦ g x ])
  case_of none k g p q = p
  case_of (some x) k g p q = q x refl

  -- the same, of a host beside a result
  pub either_first {ℓ} :
      {X : Type ℓ} (b : Bool) (u v : Host A × X)
      → Moves env l a f h u.0
      → Moves env l a f h v.0
      → Moves env l a f h (if◌then◌else◌ {A = Host A × X} b u v).0
  either_first true u v p q = p
  either_first false u v p q = q

  pub case_first {ℓ κ} :
      {X : Type ℓ} {Y : Type κ} (o : Option X) (u : Host A × Y) (g : X → Host A × Y)
      → Moves env l a f h u.0
      → ((x : X) → Moves env l a f h (g x).0)
      → Moves env l a f h (elim o as (λ _. Host A × Y) [ none ↦ u | some x ↦ g x ]).0
  case_first none u g p q = p
  case_first (some x) u g p q = q x

  -- nothing is written but what the moves do not read
  pub stays :
      (k : Host A) {k' : Host A}
      → Moves env l a f h k
      → k'.streams ≡ k.streams
      → k'.next_id ≡ k.next_id
      → k'.voice_state ≡ k.voice_state
      → Moves env l a f h k'
  stays k {k' = k'} p streams next voice =
      edits k' p streams next (inr (λ e. ap is_stopped_all voice ∙ e))

  -- a stream is written whose queue loses items at most, and whose stop and frontier stay
  pub thins :
      (k : Host A) (s : String) (st old : SessionStream A) {k' : Host A}
      → Moves env l a f h k
      → stream env s k ≡ old
      → Fewer st.queue old.queue
      → st.stopped ≡ old.stopped
      → st.frontier ≡ old.frontier
      → k'.streams ≡ Dict.put s st k.streams
      → k'.next_id ≡ k.next_id
      → k'.voice_state ≡ k.voice_state
      → Moves env l a f h k'
  thins k s st old {k' = k'} p there fewer stopped frontier streams next voice =
      puts k' s st p streams next (inr (λ e. ap is_stopped_all voice ∙ e))
        (rw there (fewer, inr (λ e. stopped ∙ e), inl frontier))

  -- a stream is written whose queue, stop and frontier stay
  pub rewrites :
      (k : Host A) (s : String) (st : SessionStream A)
      → Moves env l a f h k
      → st.queue ≡ (stream env s k).queue
      → st.stopped ≡ (stream env s k).stopped
      → st.frontier ≡ (stream env s k).frontier
      → Moves env l a f h (put_stream env s st k)
  rewrites k s st p queue stopped frontier =
      thins k s st (stream env s k) p refl
        (λ n. ground (arith, ap (λ (q : SpeechQueue). copies n q.items) queue)) stopped frontier
        refl refl refl

  flush_loop-Moves :
      (s : String) (buf : List (String × HistoryEntry)) (k : Host A)
      → Moves env l a f h k
      → Moves env l a f h (flush_loop env s buf k)
  unfolding flush_loop
  flush_loop-Moves s [] k p = p
  flush_loop-Moves s ((text, entry) ∷ buf) k p =
      let ask = forward_ask s "prose" text false entry in
      flush_loop-Moves s buf (enqueue env ask k) (asks ask p)

  pub flush-Moves :
      (s : String) (k : Host A)
      → Moves env l a f h k
      → Moves env l a f h (flush_prose_buffer env s k)
  unfolding flush_prose_buffer
  flush-Moves s k p =
      let st = stream env s k in
      let st' : SessionStream A = record st { prose_buffer = [] } in
      flush_loop-Moves s st.prose_buffer (put_stream env s st' k)
        (rewrites k s st' p refl refl refl)

  pub buffer_prose-Moves :
      (s text : String) (entry : HistoryEntry) (k : Host A)
      → Moves env l a f h k
      → Moves env l a f h (buffer_prose env s text entry k)
  unfolding buffer_prose
  buffer_prose-Moves s text entry k p =
      let st = stream env s k in
      let buf : List (String × HistoryEntry) = st.prose_buffer ++ (text, entry) ∷ [] in
      let st' : SessionStream A = record st { prose_buffer = buf } in
      let held = put_stream env s st' k in
      let q = rewrites k s st' p refl refl refl in
      either (leb (minqueue env) (length buf)) (flush_prose_buffer env s held) held
        (flush-Moves s held q) q

  pub cue-Moves :
      (kind : String) (word session : Option String) (k : Host A)
      → Moves env l a f h k
      → Moves env l a f h (cue env kind word session k)
  unfolding cue
  cue-Moves kind word session k p =
      let toned : Host A = record k { tones = kind ∷ k.tones } in
      let q : Moves env l a f h toned = stays k p refl refl refl in
      let said : String → Host A = λ text. elim session as (λ _. Host A) [
        | none ↦ toned
        | some s ↦ enqueue env (cue_ask false s text) toned
      ] in
      either (not (is_transient kind)) k
        (elim word as (λ _. Host A) [ none ↦ toned | some text ↦ said text ]) p
        (case_of word toned said q (λ text _.
          case_of session toned (λ s. enqueue env (cue_ask false s text) toned) q
            (λ s _. asks (cue_ask false s text) q)))
