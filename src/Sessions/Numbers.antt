-- ===== src/Sessions/Numbers.antt =====
-- The spoken numbers of the roster: the loop that looks for the lowest free one, and what the
-- assignments keep.
use native.Mathlib.Decide.{ℕ_discrete}
use mathlib.Core.Path.{subst}
use claude_tts.Prelude.{
  ℕ, zero, suc, ◌+◌, ◌≤◌, ◌<◌, String, ◌≡◌, ◌⊎◌, ◌↔◌, refl, ap, ◌∙◌, true, false, not, Option, none,
  some, List, [], ◌∷◌, arith, length, filter, leb, ◌==◌, str_eq, eq_iff, str_eq_refl, Bool-cases,
  Option-cases, inl, inr, if◌then◌else◌, length-filter-le, is_some,
}
use claude_tts.Prelude.Dict
use claude_tts.Prelude.Dict.{
  Dict, IsUnique, get-put, get-put_self, get-remove, has-put, has-remove, put-IsUnique,
  remove-IsUnique,
}
use claude_tts.Sessions.Text.{basename}
use claude_tts.Sessions.{
  SessionManager, mem, lowest_free, values, next_number, assign_number, record_session, number,
  number_owner, session_for_number, unregister,
}

-- how many used numbers lie at `n` or above
above : ℕ → List ℕ → ℕ
above n used = length (filter (leb n) used)

above-suc-le : (n : ℕ) (used : List ℕ) → above (n + 1) used ≤ above n used
unfolding above filter
above-suc-le n [] = omega arith
above-suc-le n (k ∷ used) = ground (arith, above-suc-le n used)

above-suc : (n : ℕ) (used : List ℕ) → mem n used ≡ true → above (n + 1) used < above n used
unfolding above filter mem
above-suc n [] h = cc
above-suc n (k ∷ used) h = ground (arith, above-suc n used, above-suc-le n used)

-- With enough fuel the loop ends at the lowest number from `n` on that is not in use.
lowest_free_from :
    (fuel : ℕ) (used : List ℕ) (n : ℕ)
    → above n used < fuel
    → (mem (lowest_free fuel used n) used ≡ false)
      × (n ≤ lowest_free fuel used n)
      × ((k : ℕ) → n ≤ k → k < lowest_free fuel used n → mem k used ≡ true)
unfolding lowest_free
lowest_free_from zero used n h = elim h [ ]
lowest_free_from (suc fuel) used n h = elim (Bool-cases (mem n used)) [
  | inr free ↦ simp free (refl, omega arith, λ k le lt. absurd (omega arith))
  | inl taken ↦
      let (new, le, low) =
        lowest_free_from fuel used (n + 1) (omega (arith, above-suc n used taken)) in
      simp taken (
        new,
        omega arith,
        λ k le' lt. elim (ℕ_discrete n k) [
          | yes e ↦ subst (λ j. mem j used ≡ true) e taken
          | no ne ↦ low k (omega arith) lt
        ],
      )
]

above-le-length : (n : ℕ) (used : List ℕ) → above n used ≤ length used
unfolding above
above-le-length n used = length-filter-le (leb n) used

length-values : (d : Dict ℕ) → length (values d) ≡ length d
length-values [] = refl
length-values (e ∷ d) = ap suc (length-values d)

mem-values : (s : String) (d : Dict ℕ) (n : ℕ) → Dict.get s d ≡ some n → mem n (values d) ≡ true
unfolding Dict.get mem
mem-values s [] n h = cc
mem-values s ((t, k) ∷ d) n h = ground (arith, mem-values s d n)

-- The invariant of the numbers: each belongs to one session, which is on the roster, and is not 0.
pub record IsNumbered (m : SessionManager) : Type 0 where
  pub unique : IsUnique m.numbers
  pub owned :
      (s t : String) (n : ℕ) → Dict.get s m.numbers ≡ some n → Dict.get t m.numbers ≡ some n → s ≡ t
  pub positive : (s : String) (n : ℕ) → Dict.get s m.numbers ≡ some n → 1 ≤ n
  pub listed : (s : String) → Dict.has s m.numbers ≡ true → Dict.has s m.sessions ≡ true

next_number_lem :
    (m : SessionManager)
    → (mem (next_number m) (values m.numbers) ≡ false)
      × (1 ≤ next_number m)
      × ((k : ℕ) → 1 ≤ k → k < next_number m → mem k (values m.numbers) ≡ true)
unfolding next_number
next_number_lem m =
    lowest_free_from (suc (length m.numbers)) (values m.numbers) 1
      (omega (arith, above-le-length 1 (values m.numbers), length-values m.numbers))

assign_number-new :
    (session : String) (m : SessionManager)
    → Dict.get session m.numbers ≡ none
    → assign_number session m ≡ record m { numbers = Dict.put session (next_number m) m.numbers }
unfolding assign_number Dict.has
assign_number-new session m h = simp h

assign_number-old :
    (session : String) (m : SessionManager) {n : ℕ}
    → Dict.get session m.numbers ≡ some n
    → assign_number session m ≡ m
unfolding assign_number Dict.has
assign_number-old session m h = simp h

-- A session that has a number keeps it. A new session gets the least positive number that no session
-- has. Every other session keeps its own.
pub assign_number_lem :
    (session : String) (m : SessionManager)
    → (n : ℕ) × (number (assign_number session m) session ≡ some n)
      × ((number m session ≡ some n)
          ⊎ ((number m session ≡ none)
              × (1 ≤ n)
              × (mem n (values m.numbers) ≡ false)
              × ((k : ℕ) → 1 ≤ k → k < n → mem k (values m.numbers) ≡ true)))
      × ((s : String) → str_eq session s ≡ false → number (assign_number session m) s ≡ number m s)
unfolding number
assign_number_lem session m = elim (Option-cases (Dict.get session m.numbers)) [
  | inr (n, e) ↦
      let same = assign_number-old session m e in
      (
        n,
        ap (λ (k : SessionManager). Dict.get session k.numbers) same ∙ e,
        inl e,
        λ s ne. ap (λ (k : SessionManager). Dict.get s k.numbers) same,
      )
  | inl e ↦
      let (new, le, low) = next_number_lem m in
      let same = assign_number-new session m e in
      (
        next_number m,
        ap (λ (k : SessionManager). Dict.get session k.numbers) same
            ∙ get-put_self session (next_number m) m.numbers,
        inr (e, le, new, low),
        λ s ne.
            ap (λ (k : SessionManager). Dict.get s k.numbers) same
            ∙ get-put session s (next_number m) m.numbers
            ∙ (simp ne),
      )
]

assign_number-IsNumbered :
    (session : String) (m : SessionManager)
    → Dict.has session m.sessions ≡ true
    → IsNumbered m
    → IsNumbered (assign_number session m)
assign_number-IsNumbered session m there i = elim (Option-cases (Dict.get session m.numbers)) [
  | inr (n, e) ↦ rw (assign_number-old session m e) i
  | inl e ↦
      let (new, le, low) = next_number_lem m in
      let k = next_number m in
      rw (assign_number-new session m e) (record {
        unique = put-IsUnique session k m.numbers i.unique;
        owned = λ s t n hs ht. ground (
          arith,
          get-put session s k m.numbers,
          get-put session t k m.numbers,
          eq_iff session s,
          eq_iff session t,
          mem-values s m.numbers k,
          mem-values t m.numbers k,
          new,
          i.owned s t n,
        );
        positive = λ s n h. ground (arith, get-put session s k m.numbers, i.positive s n, le);
        listed = λ s h. ground (
          arith,
          has-put session s k m.numbers,
          eq_iff session s,
          ap (λ (j : String). Dict.has j m.sessions),
          there,
          i.listed s,
        );
      })
]

-- the roster of `_record` before the number is assigned
listed_after :
    (session s : String) (f : Option String) (d : Dict (Option String))
    → Dict.has s (
        if not (Dict.has session d)
        then Dict.put session f d
        else if is_some f
        then Dict.put session f d
        else d)
      ≡ (if str_eq session s then true else Dict.has s d)
listed_after session s f d =
    ground (arith, has-put session s f d, eq_iff session s, ap (λ (j : String). Dict.has j d))

pub record_session-IsNumbered :
    (session : String) (cwd : Option String) (m : SessionManager)
    → IsNumbered m
    → IsNumbered (record_session session cwd m)
unfolding record_session
record_session-IsNumbered session cwd m i =
    assign_number-IsNumbered session _
      (listed_after session session (basename cwd) m.sessions ∙ simp str_eq_refl)
      (record {
        unique = i.unique;
        owned = i.owned;
        positive = i.positive;
        listed =
            λ s h. ground (arith, listed_after session s (basename cwd) m.sessions, i.listed s);
      })

pub unregister-IsNumbered :
    (session : String) (m : SessionManager) → IsNumbered m → IsNumbered (unregister session m)
unfolding unregister
unregister-IsNumbered session m i = record {
  unique = remove-IsUnique session m.numbers i.unique;
  owned = λ s t n hs ht.
      ground (arith, get-remove session s m.numbers, get-remove session t m.numbers, i.owned s t n);
  positive = λ s n h. ground (arith, get-remove session s m.numbers, i.positive s n);
  listed = λ s h.
      ground (arith, has-remove session s m.numbers, has-remove session s m.sessions, i.listed s);
}

-- the owner that the search finds has the number
number_owner-get :
    (n : ℕ) (d : Dict ℕ) (s : String)
    → IsUnique d
    → number_owner n d ≡ some s
    → Dict.get s d ≡ some n
unfolding number_owner Dict.get Dict.has
number_owner-get n [] s u h = cc
number_owner-get n ((t, k) ∷ d) s u h = ground (
  arith,
  number_owner-get n d s u.1,
  u.0,
  eq_iff t s,
  ap (λ (j : String). Dict.get j d),
  eq_iff t t,
)

number_owner-some :
    (n : ℕ) (d : Dict ℕ) (s : String)
    → Dict.get s d ≡ some n
    → (t : String) × (number_owner n d ≡ some t)
unfolding number_owner Dict.get
number_owner-some n [] s h = cc
number_owner-some n ((t, k) ∷ d) s h = elim (Bool-cases (k == n)) [
  | inl e ↦ (t, simp e)
  | inr e ↦ let (u, found) = number_owner-some n d s (ground arith) in (u, simp e found)
]

-- With the numbers in order, the session that is found for a number is the one that has it.
pub session_for_number_iff :
    (m : SessionManager) (n : ℕ) (s : String)
    → IsNumbered m
    → (session_for_number m n ≡ some s) ↔ (number m s ≡ some n)
unfolding session_for_number number
session_for_number_iff m n s i = (
  number_owner-get n m.numbers s i.unique,
  λ h.
      let (t, found) = number_owner-some n m.numbers s h in
      let same : t ≡ s = i.owned t s n (number_owner-get n m.numbers t i.unique found) h in
      found ∙ ap some same,
)
