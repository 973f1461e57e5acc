-- ===== src/Prelude/Dict.antt =====
-- Python's `dict` with text keys, as a list of entries in insertion order: writing a key that is there
-- keeps its place.
use Prim.Native.String.{String}
use mathlib.Core.Path.{◌≡◌, refl, subst}
use mathlib.Core.List.{List, [], ◌∷◌, map}
use mathlib.Core.Bool.{Bool}
use mathlib.Core.Option.{Option, none, some}
use native.Mathlib.Omega.{arith}
use text.Mathlib.Text.{◌==◌ as str_eq}
use text.Mathlib.TextEquality.{eq_iff}
use mathlib.Core.Logic.{inl, inr}
use mathlib.Core.Bool.{true, false}
use claude_tts.Prelude.Tests.{Bool-cases, if◌then◌else◌, is_some}
use claude_tts.Prelude.Lists.{All}
use mathlib.Core.Option

abbrev pub Dict {ℓ} : Type ℓ → Type ℓ
Dict V = List (String × V)

module _ {ℓ} {V : Type ℓ} where
  -- `d.get(k)`
  unfoldable pub get : String → Dict V → Option V
  get k [] = none
  get k ((j, v) ∷ d) = let rest = get k d in if str_eq j k then some v else rest

  -- `d.get(k, default)`
  unfoldable pub get_or : String → V → Dict V → V
  unfolding get
  get_or k v d = elim (get k d) [ none ↦ v | some w ↦ w ]

  -- `k in d`
  unfoldable pub has : String → Dict V → Bool
  unfolding get
  has k d = is_some (get k d)

  -- `d[k] = v`
  unfoldable pub put : String → V → Dict V → Dict V
  put k v [] = (k, v) ∷ []
  put k v ((j, w) ∷ d) = let rest = put k v d in if str_eq j k then (j, v) ∷ d else (j, w) ∷ rest

  -- `d.pop(k, None)`
  unfoldable pub remove : String → Dict V → Dict V
  remove k [] = []
  remove k ((j, w) ∷ d) = let rest = remove k d in if str_eq j k then rest else (j, w) ∷ rest

  -- `list(d.keys())`
  abbrev pub keys : Dict V → List String
  keys = map (λ e. e.0)

  pub get-put :
      (k j : String) (v : V) (d : Dict V)
      → get j (put k v d) ≡ (if str_eq k j then some v else get j d)
  unfolding get put
  get-put k j v [] = refl
  get-put k j v ((i, w) ∷ d) = ground (arith, eq_iff k j, eq_iff i k, eq_iff i j, get-put k j v d)

  pub get-remove :
      (k j : String) (d : Dict V) → get j (remove k d) ≡ (if str_eq k j then none else get j d)
  unfolding get remove
  get-remove k j [] = ground arith
  get-remove k j ((i, w) ∷ d) = ground (arith, eq_iff k j, eq_iff i k, eq_iff i j, get-remove k j d)

  pub get-put_self : (k : String) (v : V) (d : Dict V) → get k (put k v d) ≡ some v
  get-put_self k v d = ground (arith, get-put k k v d, eq_iff k k)

  pub get-remove_self : (k : String) (d : Dict V) → get k (remove k d) ≡ none
  get-remove_self k d = ground (arith, get-remove k k d, eq_iff k k)

  pub get_or-put :
      (k j : String) (v w : V) (d : Dict V)
      → get_or j w (put k v d) ≡ (if str_eq k j then v else get_or j w d)
  unfolding get_or
  get_or-put k j v w d = ground (arith, get-put k j v d)

  pub get_or-remove :
      (k j : String) (w : V) (d : Dict V)
      → get_or j w (remove k d) ≡ (if str_eq k j then w else get_or j w d)
  unfolding get_or
  get_or-remove k j w d = ground (arith, get-remove k j d)

  -- no key stands twice
  abbrev pub IsUnique : Dict V → Type 0
  IsUnique [] = Unit
  IsUnique ((k, v) ∷ d) = (has k d ≡ false) × IsUnique d

  pub has-put :
      (k j : String) (v : V) (d : Dict V)
      → has j (put k v d) ≡ (if str_eq k j then true else has j d)
  unfolding has
  has-put k j v d = ground (arith, get-put k j v d)

  pub has-remove :
      (k j : String) (d : Dict V) → has j (remove k d) ≡ (if str_eq k j then false else has j d)
  unfolding has
  has-remove k j d = ground (arith, get-remove k j d)

  pub put-IsUnique : (k : String) (v : V) (d : Dict V) → IsUnique d → IsUnique (put k v d)
  unfolding put has
  put-IsUnique k v [] u = (refl, tt)
  put-IsUnique k v ((j, w) ∷ d) u = elim (Bool-cases (str_eq j k)) [
    | inl e ↦ rw e u
    | inr e ↦
        rw e (ground (arith, has-put k j v d, eq_iff k j, eq_iff j k, u.0), put-IsUnique k v d u.1)
  ]

  pub remove-IsUnique : (k : String) (d : Dict V) → IsUnique d → IsUnique (remove k d)
  unfolding remove
  remove-IsUnique k [] u = tt
  remove-IsUnique k ((j, w) ∷ d) u = elim (Bool-cases (str_eq j k)) [
    | inl e ↦ rw e (remove-IsUnique k d u.1)
    | inr e ↦ rw e (ground (arith, has-remove k j d, u.0), remove-IsUnique k d u.1)
  ]

module _ {ℓ κ} {V : Type ℓ} (P : V → Type κ) where
  -- every value passes `P`
  abbrev pub Each : Dict V → Type κ
  Each = All (λ e. P e.1)

  pub Each-put : (k : String) (v : V) (d : Dict V) → P v → Each d → Each (put k v d)
  unfolding put
  Each-put k v [] p h = (p, tt)
  Each-put k v ((j, w) ∷ d) p h = elim (Bool-cases (str_eq j k)) [
    | inl e ↦ rw e (p, h.1)
    | inr e ↦ rw e (h.0, Each-put k v d p h.1)
  ]

  pub Each-remove : (k : String) (d : Dict V) → Each d → Each (remove k d)
  unfolding remove
  Each-remove k [] h = tt
  Each-remove k ((j, w) ∷ d) h = elim (Bool-cases (str_eq j k)) [
    | inl e ↦ rw e (Each-remove k d h.1)
    | inr e ↦ rw e (h.0, Each-remove k d h.1)
  ]

  pub Each-get : (k : String) (d : Dict V) {v : V} → get k d ≡ some v → Each d → P v
  unfolding get
  Each-get k [] e h = absurd (ground (arith, e))
  Each-get k ((j, w) ∷ d) {v = v} e h = elim (Bool-cases (str_eq j k)) [
    | inl same ↦ subst P (Option.some_inj.0 (rw same at e)) h.0
    | inr other ↦ Each-get k d (rw other at e) h.1
  ]
