-- ===== src/Sessions/Exclusive.antt =====
-- The claims on a tty, and `set_identity`.
use mathlib.Core.Path.{subst}
use claude_tts.Prelude.{
  String, ◌≡◌, ◌⊎◌, refl, ap, sym, ◌∙◌, true, false, Option, none, some, List, arith, str_eq,
  eq_iff, str-cases, str_eq_of_ne, ne_of_str_eq, Bool-cases, inl, inr,
}
use claude_tts.Prelude.Dict
use claude_tts.Prelude.Dict.{Dict, IsUnique, get-put, get-remove, put-IsUnique, remove-IsUnique}
use claude_tts.Sessions.{Identity, SessionManager, touch_mru}
use claude_tts.Sessions.Text.{truthy}
use claude_tts.Sessions.Claim.{claimed, get-claim_tty, claim_tty-IsUnique}
use claude_tts.Sessions.Terminal.{
  loses, claim_tty, pin, resolve_os_focus, evict, merge, store_identity, repair_focus,
  clear_quarantine, set_identity,
}

-- No two sessions claim one tty.
pub record IsExclusive (m : SessionManager) : Type 0 where
  pub unique : IsUnique m.identities
  pub alone :
      (s t : String) (i j : Identity)
      → Dict.get s m.identities ≡ some i
      → Dict.get t m.identities ≡ some j
      → truthy i.tty ≡ true
      → i.tty ≡ j.tty
      → s ≡ t

-- once the others lost the tty, no other session has it
pub record IsCleared (session tty : String) (m : SessionManager) : Type 0 where
  exclusive : IsExclusive m
  free :
      (s : String) (i : Identity)
      → Dict.get s m.identities ≡ some i
      → str_eq s session ≡ false
      → truthy tty ≡ true
      → str_eq i.tty tty ≡ false

empty_or_same :
    (session tty s : String) (i i' : Identity)
    → claimed session tty s (some i) ≡ some i'
    → (i'.tty ≡ "") ⊎ ((i'.tty ≡ i.tty) × (loses session tty s i ≡ false))
empty_or_same session tty s i i' h = ground arith

claimed_entry :
    (session tty s : String) (o : Option Identity) (i' : Identity)
    → claimed session tty s o ≡ some i'
    → (i : Identity) × (o ≡ some i) × (claimed session tty s (some i) ≡ some i')
claimed_entry session tty s none i' h = cc
claimed_entry session tty s (some i) i' h = (i, refl, h)

pub not_truthy-empty : (s : String) → s ≡ "" → truthy s ≡ true → ⊥
not_truthy-empty s e h = cc (ap truthy e, h)

module _ (session tty : String) (evicted : List String) (focused : Option String) where
  -- an entry behind the claim, with the entry that it comes from
  kept_entry :
      (s : String) (i' : Identity) (d : Dict Identity)
      → Dict.get s (claim_tty session tty evicted focused d).identities ≡ some i'
      → (i : Identity) × (Dict.get s d ≡ some i)
        × ((i'.tty ≡ "") ⊎ ((i'.tty ≡ i.tty) × (loses session tty s i ≡ false)))
  kept_entry s i' d h =
      let (i, here, made) =
        claimed_entry session tty s (Dict.get s d) i'
          (sym (get-claim_tty session tty s d evicted focused) ∙ h) in
      (i, here, empty_or_same session tty s i i' made)

  claim_alone :
      (m : SessionManager)
      → IsExclusive m
      → (s t : String) (i j : Identity)
      → Dict.get s (claim_tty session tty evicted focused m.identities).identities ≡ some i
      → Dict.get t (claim_tty session tty evicted focused m.identities).identities ≡ some j
      → truthy i.tty ≡ true
      → i.tty ≡ j.tty
      → s ≡ t
  claim_alone m x s t i j hs ht filled same =
      let (i', here, from) = kept_entry s i m.identities hs in
      let (j', there, from') = kept_entry t j m.identities ht in
      elim from [
        | inl empty ↦ absurd (not_truthy-empty i.tty empty filled)
        | inr (e, _) ↦ elim from' [
          | inl empty ↦ absurd (not_truthy-empty i.tty (same ∙ empty) filled)
          | inr (e', _) ↦
              x.alone s t i' j' here there (ap truthy (sym e) ∙ filled) (sym e ∙ same ∙ e')
        ]
      ]

  claim_free :
      (m : SessionManager) (s : String) (i : Identity)
      → Dict.get s (claim_tty session tty evicted focused m.identities).identities ≡ some i
      → str_eq s session ≡ false
      → truthy tty ≡ true
      → str_eq i.tty tty ≡ false
  claim_free m s i h ne filled =
      let (i', here, from) = kept_entry s i m.identities h in
      elim from [
        | inl empty ↦ str_eq_of_ne i.tty tty (λ e. not_truthy-empty tty (sym e ∙ empty) filled)
        | inr (e, kept) ↦ ground (arith, kept, ne, ap (λ (t : String). str_eq t tty) e)
      ]

pub evict-IsCleared :
    (session tty : String) (m : SessionManager)
    → IsExclusive m
    → IsCleared session tty (evict session tty m)
unfolding evict
evict-IsCleared session tty m x = elim (Bool-cases (truthy tty)) [
  | inr e ↦ rw (e, evict) (record { exclusive = x; free = λ s i h ne t. absurd (cc (e, t)) })
  | inl e ↦
      rw (e, evict)
        (record {
          exclusive = record {
            unique =
                claim_tty-IsUnique session tty m.identities m.tty_evicted m.os_focused_session
                  x.unique;
            alone = claim_alone session tty m.tty_evicted m.os_focused_session m x;
          };
          free = claim_free session tty m.tty_evicted m.os_focused_session m;
        })
]

-- the merged entry has the new tty, or the one that the session had
merge_tty :
    (o : Option Identity) (new : Identity)
    → ((merge o new).tty ≡ new.tty)
      ⊎ ((ex : Identity) × (o ≡ some ex) × ((merge o new).tty ≡ ex.tty))
merge_tty none new = inl refl
merge_tty (some ex) new = elim (Bool-cases (truthy new.tty)) [
  | inl e ↦ inl (simp e)
  | inr e ↦ inr (ex, refl, simp e)
]

module _ (session : String) (new : Identity) (m : SessionManager) where
  -- the stored tty is on no other session
  stored_alone :
      IsCleared session new.tty m
      → (t : String) (j : Identity) → Dict.get t m.identities ≡ some j
      → truthy (merge (Dict.get session m.identities) new).tty ≡ true
      → (merge (Dict.get session m.identities) new).tty ≡ j.tty
      → session ≡ t
  stored_alone c t j there filled same = elim (merge_tty (Dict.get session m.identities) new) [
    | inr (ex, here, e) ↦
        c.exclusive.alone session t ex j here there (ap truthy (sym e) ∙ filled) (sym e ∙ same)
    | inl e ↦ elim (str-cases t session) [
      | inl eq ↦ sym eq
      | inr ne ↦
          let clash : str_eq j.tty new.tty ≡ false =
            c.free t j there ne (ap truthy (sym e) ∙ filled) in
          absurd (ne_of_str_eq j.tty new.tty clash (sym same ∙ e))
    ]
  ]

  pub store_identity-IsExclusive :
      IsCleared session new.tty m → IsExclusive (store_identity session new m)
  unfolding store_identity
  store_identity-IsExclusive c = record {
    unique = put-IsUnique session _ m.identities c.exclusive.unique;
    alone = λ s t i j hs ht filled same.
        let stored = merge (Dict.get session m.identities) new in
        let hs' = sym (get-put session s stored m.identities) ∙ hs in
        let ht' = sym (get-put session t stored m.identities) ∙ ht in
        elim (str-cases session s) [
          | inl es ↦ elim (str-cases session t) [
            | inl et ↦ sym es ∙ et
            | inr nt ↦
                let ei : stored ≡ i = ground (arith, hs', eq_iff session s, es) in
                sym es
                ∙ stored_alone c t j (ground (arith, ht', nt))
                    (ap (λ (k : Identity). truthy k.tty) ei ∙ filled)
                    (ap (λ (k : Identity). k.tty) ei ∙ same)
          ]
          | inr ns ↦ elim (str-cases session t) [
            | inl et ↦
                let ej : stored ≡ j = ground (arith, ht', eq_iff session t, et) in
                sym (
                  stored_alone c s i (ground (arith, hs', ns))
                    (ap (λ (k : Identity). truthy k.tty) ej ∙ ap truthy (sym same) ∙ filled)
                    (ap (λ (k : Identity). k.tty) ej ∙ sym same))
                ∙ et
            | inr nt ↦
                c.exclusive.alone s t i j (ground (arith, hs', ns)) (ground (arith, ht', nt)) filled
                  same
          ]
        ];
  }

identities-repair_focus : (m : SessionManager) → (repair_focus m).identities ≡ m.identities
unfolding repair_focus resolve_os_focus pin touch_mru
identities-repair_focus m = ground arith

pub IsExclusive-of_same :
    (m m' : SessionManager) → m'.identities ≡ m.identities → IsExclusive m → IsExclusive m'
IsExclusive-of_same m m' e x = record {
  unique = subst IsUnique (sym e) x.unique;
  alone = λ s t i j hs ht.
      x.alone s t i j (ap (Dict.get s) (sym e) ∙ hs) (ap (Dict.get t) (sym e) ∙ ht);
}

-- Storing an identity leaves each tty with one claimant at most.
pub set_identity-IsExclusive :
    (session : String) (new : Identity) (m : SessionManager)
    → IsExclusive m
    → IsExclusive (set_identity session new m)
unfolding set_identity clear_quarantine
set_identity-IsExclusive session new m x =
    let m1 = clear_quarantine session m in
    let m2 = evict session new.tty m1 in
    let m3 = store_identity session new m2 in
    IsExclusive-of_same m3 (repair_focus m3) (identities-repair_focus m3) (
      store_identity-IsExclusive session new m2
        (evict-IsCleared session new.tty m1 (IsExclusive-of_same m m1 refl x)))
