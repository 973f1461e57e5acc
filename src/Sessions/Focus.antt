-- ===== src/Sessions/Focus.antt =====
-- The session under the keyboard focus, and the loss of a terminal to another session.
use mathlib.Core.Path.{subst}
use claude_tts.Prelude.{
  String, ◌≡◌, ◌≢◌, ◌↔◌, refl, ap, sym, ◌∙◌, Bool, true, false, Option, none, some, List, [], ◌∷◌,
  arith, str_eq, eq_iff, Bool-cases, Option-cases, inl, inr, &&-split,
}
use claude_tts.Prelude.Dict
use claude_tts.Prelude.Dict.{Dict, IsUnique, get-put}
use claude_tts.Prelude.StrSet
use claude_tts.Prelude.StrSet.{has-discard}
use claude_tts.Sessions.{Identity, SessionManager, touch_mru}
use claude_tts.Sessions.Text.{truthy}
use claude_tts.Sessions.Claim.{
  lost, get-claim_tty, has-claim_tty, focus_after_claim, no_focus_after_claim,
}
use claude_tts.Sessions.Exclusive.{
  IsExclusive, store_identity-IsExclusive, evict-IsCleared, IsExclusive-of_same,
}
use claude_tts.Sessions.Terminal.{
  on_tty, on_iterm, loses, claim_tty, find_session, match_focus, pin, resolve_os_focus, evict,
  store_identity, repair_focus, clear_quarantine, set_identity, set_os_focus, identity, liveness,
  live,
}

module _ (test : Identity → Bool) (evicted : List String) where
  -- what is found was not evicted, and its entry passes the test
  find_session-some :
      (d : Dict Identity) (s : String)
      → IsUnique d
      → find_session test evicted d ≡ some s
      → (StrSet.has s evicted ≡ false)
        × ((i : Identity) × (Dict.get s d ≡ some i) × (test i ≡ true))
  unfolding find_session Dict.get Dict.has
  find_session-some [] s u h = cc
  find_session-some ((t, i) ∷ d) s u h = elim (Bool-cases (StrSet.has t evicted)) [
    | inl e ↦
        let (kept, (j, there, hit)) = find_session-some d s u.1 (ground arith) in
        (kept, (j, ground (arith, there, u.0, eq_iff t s, ap (λ (k : String). Dict.get k d)), hit))
    | inr e ↦ elim (Bool-cases (test i)) [
      | inl hit ↦
          let same : t ≡ s = ground arith in
          (subst (λ k. StrSet.has k evicted ≡ false) same e, (i, ground (arith, eq_iff t s), hit))
      | inr miss ↦
          let (kept, (j, there, hit)) = find_session-some d s u.1 (ground arith) in
          (
            kept,
            (j, ground (arith, there, u.0, eq_iff t s, ap (λ (k : String). Dict.get k d)), hit),
          )
    ]
  ]

  find_session-none :
      (d : Dict Identity) (s : String) (i : Identity)
      → find_session test evicted d ≡ none
      → Dict.get s d ≡ some i
      → StrSet.has s evicted ≡ false
      → test i ≡ false
  unfolding find_session Dict.get
  find_session-none [] s i h there kept = cc
  find_session-none ((t, j) ∷ d) s i h there kept = ground (
    arith,
    find_session-none d s i,
    eq_iff t s,
    ap (λ (k : String). StrSet.has k evicted),
    ap test,
  )

not_evicted :
    (m : SessionManager) (raw : String × String × String) (s : String)
    → IsUnique m.identities
    → match_focus m raw ≡ some s
    → StrSet.has s m.tty_evicted ≡ false
unfolding match_focus
not_evicted m (program, tty, guid) s u h = ground (
  arith,
  λ (e : find_session (on_tty tty) m.tty_evicted m.identities ≡ some s).
      (find_session-some (on_tty tty) m.tty_evicted m.identities s u e).0,
  λ (e : find_session (on_iterm guid) m.tty_evicted m.identities ≡ some s).
      (find_session-some (on_iterm guid) m.tty_evicted m.identities s u e).0,
)

os_focused-pin : (o : Option String) (m : SessionManager) → (pin o m).os_focused_session ≡ o
unfolding pin touch_mru
os_focused-pin none m = refl
os_focused-pin (some s) m = refl

on_tty-eq : (tty : String) (i : Identity) → on_tty tty i ≡ true → i.tty ≡ tty
on_tty-eq tty i h = (eq_iff i.tty tty).0 ((&&-split (truthy i.tty) (str_eq i.tty tty) h).1)

on_tty_self : (i : Identity) → truthy i.tty ≡ true → on_tty i.tty i ≡ true
on_tty_self i h = ground (arith, h, eq_iff i.tty i.tty)

match_terminal :
    (m : SessionManager) (tty guid : String)
    → truthy tty ≡ true
    → match_focus m ("Apple_Terminal", tty, guid)
      ≡ find_session (on_tty tty) m.tty_evicted m.identities
unfolding match_focus
match_terminal m tty guid h = simp h

found_claimant :
    (m : SessionManager) (tty s : String)
    → IsExclusive m
    → truthy tty ≡ true
    → StrSet.has s m.tty_evicted ≡ false
    → (i : Identity) → Dict.get s m.identities ≡ some i
    → i.tty ≡ tty
    → find_session (on_tty tty) m.tty_evicted m.identities ≡ some s
found_claimant m tty s x filled kept i there same =
    let claims : on_tty tty i ≡ true =
      subst (λ t. on_tty t i ≡ true) same (on_tty_self i (ap truthy same ∙ filled)) in
    elim (Option-cases (find_session (on_tty tty) m.tty_evicted m.identities)) [
      | inl e ↦
          absurd (
            cc (claims, find_session-none (on_tty tty) m.tty_evicted m.identities s i e there kept))
      | inr (t, e) ↦
          let (other, (j, here, hit)) =
            find_session-some (on_tty tty) m.tty_evicted m.identities t x.unique e in
          let one : t ≡ s =
            x.alone t s j i here there (ap truthy (on_tty-eq tty j hit) ∙ filled)
              (on_tty-eq tty j hit ∙ sym same) in
          e ∙ ap some one
    ]

-- Where each tty has one claimant, a focus signal from Apple's Terminal pins exactly the session that
-- claims the tty, and pins none where that session was evicted or no session claims it.
pub set_os_focus_iff :
    (m : SessionManager) (tty guid s : String)
    → IsExclusive m
    → truthy tty ≡ true
    → ((set_os_focus "Apple_Terminal" tty guid true m).0.os_focused_session ≡ some s) ↔ (
        (StrSet.has s m.tty_evicted ≡ false)
        × ((i : Identity) × (identity m s ≡ some i) × (i.tty ≡ tty)))
unfolding set_os_focus resolve_os_focus identity
set_os_focus_iff m tty guid s x filled =
    let m' : SessionManager = record m { os_focus_raw = some ("Apple_Terminal", tty, guid) } in
    let pinned =
      os_focused-pin (match_focus m' ("Apple_Terminal", tty, guid)) m'
      ∙ match_terminal m' tty guid filled in
    (
      (λ h.
          let (kept, (i, there, hit)) =
            find_session-some (on_tty tty) m.tty_evicted m.identities s x.unique (sym pinned ∙ h) in
          (kept, (i, there, on_tty-eq tty i hit))),
      λ h. pinned ∙ found_claimant m tty s x filled h.0 h.1.0 h.1.1 h.1.2,
    )

-- A session whose tty is captured by another one.
module _ (session : String) (new : Identity) (m : SessionManager) (s : String) (i : Identity)
    (u : IsUnique m.identities) (filled : truthy new.tty ≡ true) (other : str_eq session s ≡ false)
    (there : Dict.get s m.identities ≡ some i) (same : i.tty ≡ new.tty) where
  loses_it : loses session new.tty s i ≡ true
  loses_it = ground (arith, eq_iff s session, eq_iff session s, eq_iff i.tty new.tty)

  evicted_entry : Dict.get s (evict session new.tty m).identities ≡ some (record i { tty = "" })
  unfolding evict
  evicted_entry =
      let e = get-claim_tty session new.tty s m.identities m.tty_evicted m.os_focused_session in
      ground (arith, filled, e, there, loses_it)

  evicted_mark : StrSet.has s (evict session new.tty m).tty_evicted ≡ true
  unfolding evict
  evicted_mark =
      let c = claim_tty session new.tty m.tty_evicted m.os_focused_session m.identities in
      ground (
        arith,
        filled,
        has-claim_tty session new.tty s m.identities m.tty_evicted m.os_focused_session u,
        has-discard session s c.tty_evicted,
        there,
        loses_it,
        other,
      )

  claim_focus : Option String → Option String
  claim_focus o = (claim_tty session new.tty m.tty_evicted o m.identities).os_focused

  evicted_focus : (evict session new.tty m).os_focused_session ≢ some s
  unfolding evict claim_focus
  evicted_focus h =
      let here : claim_focus m.os_focused_session ≡ some s = simp filled at h in
      elim (Option-cases m.os_focused_session) [
        | inl e ↦ cc (here, no_focus_after_claim session new.tty m.identities m.tty_evicted)
        | inr (f, e) ↦ ground (
          arith,
          here,
          ap claim_focus e,
          focus_after_claim session new.tty m.identities m.tty_evicted f u,
          other,
          eq_iff session s,
          loses_it,
          ap (λ (j : String). lost session new.tty j (Dict.get j m.identities)),
          there,
        )
      ]

-- what the eviction left stays so through the rest of `set_identity`
stored_entry :
    (session s : String) (new : Identity) (m : SessionManager)
    → str_eq session s ≡ false
    → Dict.get s (store_identity session new m).identities ≡ Dict.get s m.identities
unfolding store_identity
stored_entry session s new m other = get-put session s _ m.identities ∙ simp other

kept_by_repair :
    (m : SessionManager)
    → ((repair_focus m).identities ≡ m.identities)
      × ((repair_focus m).tty_evicted ≡ m.tty_evicted)
      × ((repair_focus m).provisional ≡ m.provisional)
unfolding repair_focus resolve_os_focus pin touch_mru
kept_by_repair m = ground arith

pub repair_focus-pinned :
    (m : SessionManager) (f : String) → m.os_focused_session ≡ some f → repair_focus m ≡ m
unfolding repair_focus
repair_focus-pinned m f e = ground (arith, e)

pub repair_focus-unset :
    (m : SessionManager) → m.os_focused_session ≡ none → m.os_focus_raw ≡ none → repair_focus m ≡ m
unfolding repair_focus
repair_focus-unset m e e' = ground (arith, e, e')

pub repair_focus-retry :
    (m : SessionManager) (raw : String × String × String)
    → m.os_focused_session ≡ none
    → m.os_focus_raw ≡ some raw
    → repair_focus m ≡ resolve_os_focus raw m
unfolding repair_focus
repair_focus-retry m raw e e' = ground (arith, e, e')

-- the late repair never pins an evicted session
repair_focus-ne :
    (m : SessionManager) (s : String)
    → IsUnique m.identities
    → StrSet.has s m.tty_evicted ≡ true
    → m.os_focused_session ≢ some s
    → (repair_focus m).os_focused_session ≢ some s
unfolding resolve_os_focus
repair_focus-ne m s u marked ne h = elim (Option-cases m.os_focused_session) [
  | inr (f, e) ↦
      ne (sym (ap (λ (k : SessionManager). k.os_focused_session) (repair_focus-pinned m f e)) ∙ h)
  | inl e ↦ elim (Option-cases m.os_focus_raw) [
    | inl e' ↦
        ne (sym (ap (λ (k : SessionManager). k.os_focused_session) (repair_focus-unset m e e')) ∙ h)
    | inr (raw, e') ↦
        let pinned : match_focus m raw ≡ some s =
          sym (os_focused-pin (match_focus m raw) m)
          ∙ sym (ap (λ (k : SessionManager). k.os_focused_session) (repair_focus-retry m raw e e'))
          ∙ h in
        absurd (cc (not_evicted m raw s u pinned, marked))
  ]
]

dead_of_evicted :
    (exists : String → Option Bool) (m : SessionManager) (s : String)
    → StrSet.has s m.tty_evicted ≡ true
    → liveness exists m s ≢ live
unfolding liveness
dead_of_evicted exists m s marked h = ground (arith, marked)

-- Where `new` claims the tty that another session has, that session's tty is emptied, the session is not
-- live for any probe of the file system, and the keyboard focus is not pinned to it, also where it was
-- pinned before or a kept focus signal is tried again; and that session is not forgotten.
pub tty_steal :
    (exists : String → Option Bool) (session s : String) (new i : Identity) (m : SessionManager)
    → IsExclusive m
    → truthy new.tty ≡ true
    → str_eq session s ≡ false
    → identity m s ≡ some i
    → i.tty ≡ new.tty
    → (identity (set_identity session new m) s ≡ some (record i { tty = "" }))
      × (liveness exists (set_identity session new m) s ≢ live)
      × ((set_identity session new m).os_focused_session ≢ some s)
unfolding set_identity identity clear_quarantine store_identity
tty_steal exists session s new i m x filled other there same =
    let m1 = clear_quarantine session m in
    let m2 = evict session new.tty m1 in
    let m3 = store_identity session new m2 in
    let x3 =
      store_identity-IsExclusive session new m2
        (evict-IsCleared session new.tty m1 (IsExclusive-of_same m m1 refl x)) in
    let kept = kept_by_repair m3 in
    let mark : StrSet.has s m3.tty_evicted ≡ true =
      evicted_mark session new m1 s i x.unique filled other there same in
    (
      ap (Dict.get s) kept.0
          ∙ stored_entry session s new m2 other
          ∙ evicted_entry session new m1 s i x.unique filled other there same,
      dead_of_evicted exists (repair_focus m3) s (ap (StrSet.has s) kept.1 ∙ mark),
      repair_focus-ne m3 s x3.unique mark
          (evicted_focus session new m1 s i x.unique filled other there same),
    )
