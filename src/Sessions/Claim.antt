-- ===== src/Sessions/Claim.antt =====
-- The loop of `set_identity` that takes a tty from its other claimants, entry by entry.
use claude_tts.Prelude.{
  String, ◌≡◌, refl, ap, ◌∙◌, Bool, false, ◌&&◌, ◌||◌, Option, none, some, List, [], ◌∷◌, arith,
  str_eq, eq_iff, Bool-cases, inl, inr, if◌then◌else◌,
}
use claude_tts.Prelude.Dict
use claude_tts.Prelude.Dict.{Dict, IsUnique, get-put, get-remove, put-IsUnique, remove-IsUnique}
use claude_tts.Prelude.StrSet
use claude_tts.Prelude.StrSet.{has-add, has-discard}
use claude_tts.Sessions.{Identity, is_session}
use claude_tts.Sessions.Terminal.{loses, claim_tty}

-- what a claim leaves of the entry of `s`
abbrev pub claimed : String → String → String → Option Identity → Option Identity
claimed session tty s none = none
claimed session tty s (some i) = some (if loses session tty s i then record i { tty = "" } else i)

abbrev pub lost : String → String → String → Option Identity → Bool
lost session tty s none = false
lost session tty s (some i) = loses session tty s i

-- a claimant keeps its own entry
pub own_claim : (session tty : String) (o : Option Identity) → lost session tty session o ≡ false
own_claim session tty none = refl
own_claim session tty (some i) = ground (arith, eq_iff session session)

module _ (session tty : String) where
  pub get-claim_tty :
      (s : String) (d : Dict Identity) (evicted : List String) (focused : Option String)
      → Dict.get s (claim_tty session tty evicted focused d).identities
        ≡ claimed session tty s (Dict.get s d)
  unfolding claim_tty Dict.get
  get-claim_tty s [] evicted focused = refl
  get-claim_tty s ((t, i) ∷ d) evicted focused = elim (Bool-cases (str_eq t s)) [
    | inl e ↦ simp e (ap (λ (j : String). claimed session tty j (some i)) ((eq_iff t s).0 e))
    | inr ne ↦ simp ne (get-claim_tty s d _ _)
  ]

  -- the sessions whose claim is cleared are those that are marked, besides those marked before
  pub has-claim_tty :
      (s : String) (d : Dict Identity) (evicted : List String) (focused : Option String)
      → IsUnique d
      → StrSet.has s (claim_tty session tty evicted focused d).tty_evicted
        ≡ (StrSet.has s evicted || lost session tty s (Dict.get s d))
  unfolding claim_tty Dict.get Dict.has
  has-claim_tty s [] evicted focused u = ground arith
  has-claim_tty s ((t, i) ∷ d) evicted focused u = ground (
    arith,
    has-claim_tty s d (if loses session tty t i then StrSet.add t evicted else evicted)
        (if loses session tty t i && is_session focused t then some session else focused) u.1,
    has-add t s evicted,
    eq_iff t s,
    ap (λ (j : String). loses session tty j i),
    ap (λ (j : String). Dict.get j d),
    u.0,
  )

  -- the focus goes from a session that loses its claim to the claimant
  pub focus_after_claim :
      (d : Dict Identity) (evicted : List String) (f : String)
      → IsUnique d
      → (claim_tty session tty evicted (some f) d).os_focused
        ≡ some (if lost session tty f (Dict.get f d) then session else f)
  unfolding claim_tty Dict.get Dict.has
  focus_after_claim [] evicted f u = refl
  focus_after_claim ((t, i) ∷ d) evicted f u =
      let marked = if loses session tty t i then StrSet.add t evicted else evicted in
      elim (Bool-cases (loses session tty t i && str_eq f t)) [
        | inl e ↦ simp e (
            focus_after_claim d marked session u.1
            ∙ ground (
              arith,
              e,
              own_claim session tty (Dict.get session d),
              eq_iff f t,
              eq_iff t f,
              ap (λ (j : String). loses session tty j i),
            ))
        | inr e ↦ simp e (
            focus_after_claim d marked f u.1
            ∙ ground (
              arith,
              e,
              eq_iff f t,
              eq_iff t f,
              ap (λ (j : String). loses session tty j i),
              ap (λ (j : String). Dict.get j d),
              u.0,
            ))
      ]

  pub no_focus_after_claim :
      (d : Dict Identity) (evicted : List String)
      → (claim_tty session tty evicted none d).os_focused ≡ none
  unfolding claim_tty
  no_focus_after_claim [] evicted = refl
  no_focus_after_claim ((t, i) ∷ d) evicted = ground (
    arith,
    no_focus_after_claim d (if loses session tty t i then StrSet.add t evicted else evicted),
  )

  keys-claim_tty :
      (s : String) (d : Dict Identity) (evicted : List String) (focused : Option String)
      → Dict.has s (claim_tty session tty evicted focused d).identities ≡ Dict.has s d
  unfolding Dict.has
  keys-claim_tty s d evicted focused = ground (arith, get-claim_tty s d evicted focused)

  pub claim_tty-IsUnique :
      (d : Dict Identity) (evicted : List String) (focused : Option String)
      → IsUnique d
      → IsUnique (claim_tty session tty evicted focused d).identities
  unfolding claim_tty
  claim_tty-IsUnique [] evicted focused u = tt
  claim_tty-IsUnique ((t, i) ∷ d) evicted focused u =
      (keys-claim_tty t d _ _ ∙ u.0, claim_tty-IsUnique d _ _ u.1)
