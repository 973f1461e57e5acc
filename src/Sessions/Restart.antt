-- ===== src/Sessions/Restart.antt =====
-- A restart of the daemon: what `load_state` makes of the output of `to_state`.
use claude_tts.Prelude.{
  ℕ, String, ◌≡◌, refl, ap, ◌∙◌, ◌||◌, Option, none, some, [], ◌∷◌, map, arith, str_eq, eq_iff,
  Option-cases, inl, inr, if◌then◌else◌,
}
use claude_tts.Prelude.Dict
use claude_tts.Prelude.Dict.{Dict, IsUnique, get-put, get_or-put}
use claude_tts.Prelude.StrSet
use claude_tts.Prelude.StrSet.{has-add}
use claude_tts.Sessions.{SessionManager, init, number, folder}
use claude_tts.Sessions.Terminal.{is_provisional}
use claude_tts.Sessions.State.{SavedSession, save_session, to_state, load_session, load_state}
use claude_tts.Sessions.Numbers.{IsNumbered}

-- what a table holds for `s` after the entry `o` is loaded over it
abbrev after_folder : Option SavedSession → Option String → Option String
after_folder none old = old
after_folder (some sd) old = sd.folder

abbrev after_number : Option SavedSession → Option ℕ → Option ℕ
after_number none old = old
after_number (some sd) old = elim sd.number [ none ↦ old | some n ↦ some n ]

folder-load_session :
    (m : SessionManager) (t s : String) (sd : SavedSession)
    → folder (load_session m (t, sd)) s ≡ (if str_eq t s then sd.folder else folder m s)
unfolding load_session folder
folder-load_session m t s sd = get_or-put t s sd.folder none m.sessions

-- what a table holds for `s` after the entry `sd` of `t` is loaded over it
number-load_session :
    (m : SessionManager) (t s : String) (sd : SavedSession)
    → number (load_session m (t, sd)) s
      ≡ (if str_eq t s then after_number (some sd) (number m s) else number m s)
unfolding load_session number
number-load_session m t s sd = elim (Option-cases sd.number) [
  | inl e ↦ ground (arith, e)
  | inr (n, e) ↦ ground (arith, e, get-put t s n m.numbers)
]

folder-load :
    (d : Dict SavedSession) (m : SessionManager) (s : String)
    → IsUnique d
    → folder (load_state d m) s ≡ after_folder (Dict.get s d) (folder m s)
unfolding load_state Dict.get Dict.has
folder-load [] m s u = refl
folder-load ((t, sd) ∷ d) m s u = ground (
  arith,
  folder-load d (load_session m (t, sd)) s u.1,
  folder-load_session m t s sd,
  u.0,
  eq_iff t s,
  ap (λ (j : String). Dict.get j d),
)

number-load :
    (d : Dict SavedSession) (m : SessionManager) (s : String)
    → IsUnique d
    → number (load_state d m) s ≡ after_number (Dict.get s d) (number m s)
unfolding load_state Dict.get Dict.has
number-load [] m s u = refl
number-load ((t, sd) ∷ d) m s u = ground (
  arith,
  number-load d (load_session m (t, sd)) s u.1,
  number-load_session m t s sd,
  u.0,
  eq_iff t s,
  ap (λ (j : String). Dict.get j d),
)

provisional-load :
    (d : Dict SavedSession) (m : SessionManager) (s : String)
    → is_provisional (load_state d m) s ≡ (Dict.has s d || is_provisional m s)
unfolding load_state load_session is_provisional Dict.get Dict.has
provisional-load [] m s = refl
provisional-load ((t, sd) ∷ d) m s =
    provisional-load d (load_session m (t, sd)) s ∙ ground (arith, has-add t s m.provisional)

module _ (m : SessionManager) where
  get-saved :
      (s : String) (d : Dict (Option String))
      → Dict.get s (map (save_session m) d)
        ≡ (if Dict.has s d then some (save_session m (s, none)).1 else none)
  unfolding Dict.get Dict.has save_session
  get-saved s [] = refl
  get-saved s ((t, o) ∷ d) =
      ground (arith, get-saved s d, eq_iff t s, ap (λ (j : String). (save_session m (j, none)).1))

  pub has-saved :
      (s : String) (d : Dict (Option String)) → Dict.has s (map (save_session m) d) ≡ Dict.has s d
  unfolding Dict.has save_session
  has-saved s d = ground (arith, get-saved s d)

  saved-IsUnique : (d : Dict (Option String)) → IsUnique d → IsUnique (map (save_session m) d)
  unfolding save_session
  saved-IsUnique [] u = tt
  saved-IsUnique ((t, o) ∷ d) u = (has-saved t d ∙ u.0, saved-IsUnique d u.1)

-- A roster that is saved and loaded into a new manager has the same folder labels and the same numbers,
-- and the provisional sessions are exactly those that were saved.
pub restart_roster :
    (policy : String) (m : SessionManager) (s : String)
    → IsNumbered m
    → IsUnique m.sessions
    → (folder (load_state (to_state m) (init policy)) s ≡ folder m s)
      × (number (load_state (to_state m) (init policy)) s ≡ number m s)
      × (is_provisional (load_state (to_state m) (init policy)) s ≡ Dict.has s m.sessions)
unfolding to_state save_session folder number is_provisional Dict.get_or Dict.has StrSet.has
restart_roster policy m s i u =
    let saved = to_state m in
    let v = saved-IsUnique m m.sessions u in
    (
      folder-load saved (init policy) s v ∙ ground (arith, get-saved m s m.sessions),
      number-load saved (init policy) s v ∙ ground (arith, get-saved m s m.sessions, i.listed s),
      provisional-load saved (init policy) s ∙ ground (arith, has-saved m s m.sessions),
    )
