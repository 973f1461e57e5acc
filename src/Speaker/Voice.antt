-- ===== src/Speaker/Voice.antt =====
-- `Speaker`: the threads between two events.
use mathlib.Core.Path.{subst}
use claude_tts.Prelude.{
  ℕ, suc, ◌≤◌, ◌<◌, ◌≡◌, ◌≢◌, ◌⊎◌, inl, inr, refl, ap, sym, Bool, true, false, Option, none, some,
  List, [], ◌∷◌, arith, ◌==◌, ==_iff, if◌then◌else◌, Bool-cases, Option-cases,
}
use claude_tts.Speaker.{
  Phase, resting, waiting, spawning, playing, ended, completed, interrupted, failed, Speaker, init,
  Event, calls, acquires, spawns, exits, judges, cancels, at, mark, baseline, call, acquire,
  spawned, exited, judged, cancel, step, run,
}

-- the thread is inside `_play_lock`
abbrev pub holds_lock : Phase → Bool
holds_lock (spawning e) = true
holds_lock (playing e p) = true
holds_lock (ended e clean) = true
holds_lock _ = false

-- what a phase claims, with the epoch, the handle and the terminated children of the speaker
abbrev pub Fits : ℕ → Option ℕ → (ℕ → Bool) → Phase → Type 0
Fits epoch current terminated (waiting (some e)) = e ≤ epoch
Fits epoch current terminated (spawning e) = e ≤ epoch
Fits epoch current terminated (playing e p) =
    (e ≤ epoch) × (current ≡ some p) × ((epoch ≡ e) ⊎ (terminated p ≡ true))
Fits epoch current terminated (ended e clean) = e ≤ epoch
Fits epoch current terminated (interrupted e) = e < epoch
Fits epoch current terminated _ = Unit

abbrev pub FitsIn : Speaker → Phase → Type 0
FitsIn s ph = Fits s.cancel_epoch s.current s.terminated ph

pub record IsSafe (s : Speaker) : Type 0 where
  pub locked : (i : ℕ) → holds_lock (s.phase i) ≡ true → s.play_lock ≡ some i
  pub fits : (i : ℕ) → FitsIn s (s.phase i)

-- a thread outside the lock says nothing of the handle
Fits-outside :
    (epoch : ℕ) (c c' : Option ℕ) (t t' : ℕ → Bool) (ph : Phase)
    → holds_lock ph ≡ false
    → Fits epoch c t ph
    → Fits epoch c' t' ph
Fits-outside epoch c c' t t' resting h f = tt
Fits-outside epoch c c' t t' (waiting none) h f = tt
Fits-outside epoch c c' t t' (waiting (some e)) h f = f
Fits-outside epoch c c' t t' (spawning e) h f = cc
Fits-outside epoch c c' t t' (playing e p) h f = cc
Fits-outside epoch c c' t t' (ended e clean) h f = cc
Fits-outside epoch c c' t t' completed h f = tt
Fits-outside epoch c c' t t' (interrupted e) h f = f
Fits-outside epoch c c' t t' failed h f = tt

module _ (s : Speaker) (x : IsSafe s) (i : ℕ) where
  -- a thread that is in the lock is there alone
  alone : s.play_lock ≡ some i → (j : ℕ) → (i == j) ≡ false → holds_lock (s.phase j) ≡ false
  alone held j ne = elim (Bool-cases (holds_lock (s.phase j))) [
    | inr e ↦ e
    | inl e ↦ absurd (ground (arith, held, x.locked j e, ne))
  ]

  -- thread `i` goes on to `ph` while nobody else is in the lock
  IsSafe-move :
      (s' : Speaker) (ph : Phase)
      → s'.phase ≡ at i ph s.phase
      → s'.cancel_epoch ≡ s.cancel_epoch
      → ((j : ℕ) → (i == j) ≡ false → holds_lock (s.phase j) ≡ false)
      → (holds_lock ph ≡ true → s'.play_lock ≡ some i)
      → FitsIn s' ph
      → IsSafe s'
  IsSafe-move s' ph moved epoch free lock fit = record {
    locked = λ j h. elim (Bool-cases (i == j)) [
      | inl e ↦ ground (arith, e, lock, h, ap (λ (f : ℕ → Phase). holds_lock (f j)) moved)
      | inr ne ↦ ground (arith, ne, h, free j ne, ap (λ (f : ℕ → Phase). holds_lock (f j)) moved)
    ];
    fits = λ j.
        subst (λ f. FitsIn s' (f j)) (sym moved)
          (elim (Bool-cases (i == j)) [
            | inl e ↦ rw e fit
            | inr ne ↦ rw ne (
                subst (λ n. Fits n s'.current s'.terminated (s.phase j)) (sym epoch)
                  (Fits-outside s.cancel_epoch s.current s'.current s.terminated s'.terminated
                    (s.phase j) (free j ne) (x.fits j)))
          ]);
  }

  -- thread `i` calls, and touches nothing but its phase
  call-IsSafe :
      (has_runner : Bool) (base : Option ℕ)
      → FitsIn s (waiting base)
      → IsSafe (call i has_runner base s)
  unfolding call
  call-IsSafe has_runner base fit = record {
    locked = λ j h. ground (arith, h, x.locked j);
    fits = λ j. elim (Bool-cases (i == j)) [
      | inr ne ↦ rw ne (x.fits j)
      | inl e ↦ rw e (elim (Bool-cases has_runner) [ inl r ↦ rw r fit | inr r ↦ rw r tt ])
    ];
  }

  acquire-busy : (base : Option ℕ) (k : ℕ) → s.play_lock ≡ some k → acquire i base s ≡ s
  unfolding acquire
  acquire-busy base k e = ground (arith, e)

  acquire-free :
      (base : Option ℕ)
      → s.play_lock ≡ none
      → acquire i base s ≡ record s {
        play_lock = some i;
        phase = at i (spawning (baseline base s.cancel_epoch)) s.phase;
      }
  unfolding acquire
  acquire-free base e = ground (arith, e)

  baseline-le :
      (base : Option ℕ) → FitsIn s (waiting base) → baseline base s.cancel_epoch ≤ s.cancel_epoch
  baseline-le none fit = omega arith
  baseline-le (some e) fit = fit

  acquire-IsSafe : (base : Option ℕ) → FitsIn s (waiting base) → IsSafe (acquire i base s)
  acquire-IsSafe base fit = elim (Option-cases s.play_lock) [
    | inr (k, e) ↦ subst IsSafe (sym (acquire-busy base k e)) x
    | inl e ↦ subst IsSafe (sym (acquire-free base e)) (
        IsSafe-move _ (spawning (baseline base s.cancel_epoch)) refl refl
          (λ j ne. elim (Bool-cases (holds_lock (s.phase j))) [
            | inr h ↦ h
            | inl h ↦ absurd (cc (x.locked j h, e))
          ])
          (λ h. refl) (baseline-le base fit))
  ]

  -- the runner of the thread in the lock has returned
  spawned-IsSafe :
      (e : ℕ) (child : Option ℕ) → s.phase i ≡ spawning e → IsSafe (spawned i e child s)
  unfolding spawned
  spawned-IsSafe e none here =
      let free = alone (x.locked i (ap holds_lock here)) in
      IsSafe-move (spawned i e none s) failed refl refl free (λ h. cc) tt
  spawned-IsSafe e (some p) here =
      let held = x.locked i (ap holds_lock here) in
      let fit : e ≤ s.cancel_epoch = subst (FitsIn s) here (x.fits i) in
      elim (Bool-cases (s.cancel_epoch == e)) [
        | inl same ↦ rw same (
            IsSafe-move (record s { current = some p; phase = at i (playing e p) s.phase })
              (playing e p) refl refl (alone held) (λ h. held)
              (fit, refl, inl ((==_iff s.cancel_epoch e).0 same)))
        | inr late ↦ rw late (
            IsSafe-move
              (record s {
                play_lock = none;
                phase = at i (interrupted e) s.phase;
                terminated = mark p s.terminated;
              })
              (interrupted e) refl refl (alone held) (λ h. cc) (ground (arith, fit, late)))
      ]

  exited-IsSafe : (e p : ℕ) (clean : Bool) → s.phase i ≡ playing e p → IsSafe (exited i e p clean s)
  unfolding exited
  exited-IsSafe e p clean here =
      let held = x.locked i (ap holds_lock here) in
      let fit = subst (FitsIn s) here (x.fits i) in
      IsSafe-move (exited i e p clean s) (ended e clean) refl refl (alone held) (λ h. held) fit.0

  judged-IsSafe : (e : ℕ) (clean : Bool) → s.phase i ≡ ended e clean → IsSafe (judged i e clean s)
  unfolding judged
  judged-IsSafe e clean here =
      let held = x.locked i (ap holds_lock here) in
      let fit : e ≤ s.cancel_epoch = subst (FitsIn s) here (x.fits i) in
      IsSafe-move (judged i e clean s)
        (if clean then completed else if s.cancel_epoch == e then failed else interrupted e) refl
        refl (alone held) (λ h. ground (arith, h))
        (elim (Bool-cases clean) [
          | inl c ↦ rw c tt
          | inr c ↦ elim (Bool-cases (s.cancel_epoch == e)) [
            | inl same ↦ rw (c, same) tt
            | inr late ↦ rw (c, late) (ground (arith, fit, late))
          ]
        ])

-- a cancel reaches whoever plays
Fits-cancelled :
    (epoch : ℕ) (c : Option ℕ) (t : ℕ → Bool) (ph : Phase)
    → Fits epoch c t ph
    → Fits (suc epoch) c (elim c [ none ↦ t | some p ↦ mark p t ]) ph
Fits-cancelled epoch c t resting f = tt
Fits-cancelled epoch c t (waiting none) f = tt
Fits-cancelled epoch c t (waiting (some e)) f = omega (arith, f)
Fits-cancelled epoch c t (spawning e) f = omega (arith, f)
Fits-cancelled epoch c t (playing e p) (le, here, _) =
    (omega (arith, le), here, inr (ground (arith, here)))
Fits-cancelled epoch c t (ended e clean) f = omega (arith, f)
Fits-cancelled epoch c t completed f = tt
Fits-cancelled epoch c t (interrupted e) f = omega (arith, f)
Fits-cancelled epoch c t failed f = tt

cancel-IsSafe : (s : Speaker) → IsSafe s → IsSafe (cancel s)
unfolding cancel
cancel-IsSafe s x = record {
  locked = x.locked;
  fits = λ i. Fits-cancelled s.cancel_epoch s.current s.terminated (s.phase i) (x.fits i);
}

-- the baseline of a call is an epoch that was read before
abbrev pub IsClaimed : Speaker → Event → Type 0
IsClaimed s (calls i has_runner (some e)) = e ≤ s.cancel_epoch
IsClaimed s _ = Unit

abbrev pub AllClaimed : Speaker → List Event → Type 0
AllClaimed s [] = Unit
AllClaimed s (e ∷ es) = IsClaimed s e × AllClaimed (step s e) es

Fits-claimed :
    (s : Speaker) (i : ℕ) (has_runner : Bool) (base : Option ℕ)
    → IsClaimed s (calls i has_runner base)
    → FitsIn s (waiting base)
Fits-claimed s i has_runner none c = tt
Fits-claimed s i has_runner (some e) c = c

step-IsSafe : (s : Speaker) (e : Event) → IsSafe s → IsClaimed s e → IsSafe (step s e)
unfolding step
step-IsSafe s (calls i has_runner base) x c =
    elim (s.phase i) as (λ ph. IsSafe (elim ph [ resting ↦ call i has_runner base s | _ ↦ s ])) [
      | resting ↦ call-IsSafe s x i has_runner base (Fits-claimed s i has_runner base c)
      | _ ↦ x
    ]
step-IsSafe s (acquires i) x c =
    (elim (s.phase i)
        as (λ ph. s.phase i ≡ ph → IsSafe (elim ph [ waiting base ↦ acquire i base s | _ ↦ s ])) [
          | waiting base ↦ λ h. acquire-IsSafe s x i base (subst (FitsIn s) h (x.fits i))
          | _ ↦ λ h. x
        ])
      refl
step-IsSafe s (spawns i p) x c =
    (elim (s.phase i)
        as (λ ph. s.phase i ≡ ph → IsSafe (elim ph [ spawning e ↦ spawned i e p s | _ ↦ s ])) [
          | spawning e ↦ λ h. spawned-IsSafe s x i e p h
          | _ ↦ λ h. x
        ])
      refl
step-IsSafe s (exits i clean) x c =
    (elim (s.phase i)
        as (λ ph.
          s.phase i ≡ ph → IsSafe (elim ph [ playing e p ↦ exited i e p clean s | _ ↦ s ])) [
            | playing e p ↦ λ h. exited-IsSafe s x i e p clean h
            | _ ↦ λ h. x
          ])
      refl
step-IsSafe s (judges i) x c =
    (elim (s.phase i)
        as (λ ph.
          s.phase i ≡ ph → IsSafe (elim ph [ ended e clean ↦ judged i e clean s | _ ↦ s ])) [
            | ended e clean ↦ λ h. judged-IsSafe s x i e clean h
            | _ ↦ λ h. x
          ])
      refl
step-IsSafe s cancels x c = cancel-IsSafe s x

run-IsSafe : (s : Speaker) (es : List Event) → IsSafe s → AllClaimed s es → IsSafe (run s es)
unfolding run
run-IsSafe s [] x c = x
run-IsSafe s (e ∷ es) x (c, cs) = run-IsSafe (step s e) es (step-IsSafe s e x c) cs

init-IsSafe : IsSafe init
init-IsSafe = record { locked = λ i h. cc; fits = λ i. tt }

-- Whatever the threads do, in any order, with baselines that were epochs before the call: no two of them are between the start of a child and the end of
-- their call at once, so there is one voice.
pub one_voice :
    (es : List Event) (i j : ℕ)
    → AllClaimed init es
    → i ≢ j
    → holds_lock ((run init es).phase i) ≡ true
    → holds_lock ((run init es).phase j) ≡ false
one_voice es i j c ne h =
    let x = run-IsSafe init es init-IsSafe c in
    alone (run init es) x i (x.locked i h) j (ground (arith, ne, ==_iff i j))

-- With baselines that were epochs before the call, no cancel is lost: where a thread plays a child and the epoch has passed its baseline, the child was told
-- to terminate and it is the one in the handle; and a call that reports an
-- interruption was cancelled behind its baseline.
pub no_lost_cancel :
    (es : List Event) (i : ℕ)
    → AllClaimed init es
    → ((e p : ℕ)
        → (run init es).phase i ≡ playing e p
        → e ≢ (run init es).cancel_epoch
        → ((run init es).terminated p ≡ true) × ((run init es).current ≡ some p))
      × ((e : ℕ) → (run init es).phase i ≡ interrupted e → e < (run init es).cancel_epoch)
no_lost_cancel es i c =
    let s = run init es in
    let x = run-IsSafe init es init-IsSafe c in
    (
      λ e p here ne.
          let fit = subst (FitsIn s) here (x.fits i) in
          (elim fit.2 [ inl same ↦ absurd (ne (sym same)) | inr t ↦ t ], fit.1),
      λ e here. subst (FitsIn s) here (x.fits i),
    )

-- A call that nothing else comes between, made while nobody holds the lock, with a child that starts:
-- it is interrupted where the epoch has passed its baseline, else it completes where the child exits
-- with 0 and fails where it does not; and it leaves the lock free.
pub speak_outcome :
    (s : Speaker) (i e p : ℕ) (clean : Bool)
    → s.play_lock ≡ none
    → s.phase i ≡ resting
    → ((run s (
            calls i true (some e)
            ∷ acquires i
            ∷ spawns i (some p)
            ∷ exits i clean
            ∷ judges i
            ∷ [])).phase
          i
        ≡ (if s.cancel_epoch == e then if clean then completed else failed else interrupted e))
      × ((run s (
            calls i true (some e)
            ∷ acquires i
            ∷ spawns i (some p)
            ∷ exits i clean
            ∷ judges i
            ∷ [])).play_lock
          ≡ none)
unfolding run step call acquire spawned exited judged
speak_outcome s i e p clean free rest =
    (ground (arith, free, rest, ==_iff i i), ground (arith, free, rest, ==_iff i i))
