-- ===== src/Handlers/Waiting.antt =====
-- Which session `_waiting_target` of src/sonari/daemon/features/focus.py takes.
use claude_tts.Prelude.{
  ◌≡◌, ◌⊎◌, inl, inr, refl, Bool, true, false, not, ◌&&◌, ◌||◌, Option, none, some, List, [], ◌∷◌,
  ◌++◌, arith, All, filter, map, String, Bool-cases, ap,
}
use claude_tts.Prelude.Dict.{Dict}
use claude_tts.Sessions.Terminal.{is_live}
use claude_tts.SpeechQueue
use claude_tts.SessionStream.{SessionStream}
use claude_tts.Host.{Host, Env}
use claude_tts.Handlers.Focus.{is_passed}

-- the first element that passes a test, with what stands before it
abbrev pub First {ℓ} : {A : Type ℓ} → (A → Bool) → List A → A → Type ℓ
First {A = A} p xs x =
    (before : List A) × (after : List A) × (xs ≡ before ++ x ∷ after)
    × (p x ≡ true)
    × All (λ y. p y ≡ false) before

module _ {A : Type 0} (env : Env A) where
  -- a session that may be taken: not passed over, and alive
  abbrev pub is_offered : Option String → Host A → String × SessionStream A → Bool
  is_offered exclude h e =
      not (is_passed env exclude h e.0 e.1 || not (is_live env.exists h.sessions e.0))

  -- one with a decision queued, and one with other speech only
  abbrev pub is_blocked : Option String → Host A → String × SessionStream A → Bool
  is_blocked exclude h e = is_offered exclude h e && SpeechQueue.has_decision e.1.queue

  -- What is found among the entries of a table: an offer with a decision; or where there is none, any offer; or
  -- nothing, where there is no offer.
  abbrev pub Picks : Option String → Host A → Dict (SessionStream A) → Option String → Type 0
  Picks exclude h d o =
      ((e : String × SessionStream A) × (o ≡ some e.0) × First (is_blocked exclude h) d e)
      ⊎ ((All (λ y. is_blocked exclude h y ≡ false) d
            × (e : String × SessionStream A) × (o ≡ some e.0)
            × First (is_offered exclude h) d e)
          ⊎ (All (λ y. is_offered exclude h y ≡ false) d × (o ≡ none)))

  -- one with other speech only
  abbrev is_prose : Option String → Host A → String × SessionStream A → Bool
  is_prose exclude h e = is_offered exclude h e && not (SpeechQueue.has_decision e.1.queue)

  abbrev names : (String × SessionStream A → Bool) → Dict (SessionStream A) → List String
  names p d = map (λ e. e.0) (filter p d)

  find :
      (p : String × SessionStream A → Bool) (d : Dict (SessionStream A))
      → ((e : String × SessionStream A) × (rest : List String) × (names p d ≡ e.0 ∷ rest)
          × First p d e)
        ⊎ (All (λ y. p y ≡ false) d × (names p d ≡ []))
  unfolding filter
  find p [] = inr (tt, refl)
  find p (e ∷ d) =
      let rest = find p d in
      elim (Bool-cases (p e)) [
        | inl hit ↦ inl (e, names p d, ground (arith, hit), ([], d, refl, hit, tt))
        | inr miss ↦ elim rest [
          | inl (x, more, there, (before, after, cut, good, all)) ↦ inl (
            x,
            more,
            ground (arith, miss, there),
            (e ∷ before, after, ap (λ t. e ∷ t) cut, good, (miss, all)),
          )
          | inr (all, nothing) ↦ inr ((miss, all), ground (arith, miss, nothing))
        ]
      ]
