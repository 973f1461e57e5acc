-- ===== src/Prelude/Thinning.antt =====
-- Lists whose elements stand in a relation to all that follow, and what thinning a list keeps.
use Prim.Native.Nat.{ℕ, zero, suc, ◌≤◌}
use mathlib.Core.Path.{refl, subst, sym, ap}
use mathlib.Core.List.{List, [], ◌∷◌, ◌++◌, map, Sublistᴰ}
use mathlib.Core.Bool.{Bool}
use mathlib.Core.Logic.{inl, inr}
use native.Mathlib.Omega.{arith}
use claude_tts.Prelude.Tests.{Bool-cases}
use claude_tts.Prelude.Lists.{length, All, All-append, drop, filter, pop_first}

module _ {ℓ} {A : Type ℓ} where
  -- each element is related to every later one
  abbrev pub Ordered {κ} : (A → A → Type κ) → List A → Type (ℓ ⊔ κ)
  Ordered R [] = Unit
  Ordered R (x ∷ xs) = All (R x) xs × Ordered R xs

module _ {ℓ κ} {A : Type ℓ} (P : A → Type κ) where
  pub All-sublist : {xs ys : List A} → Sublistᴰ xs ys → All P ys → All P xs
  All-sublist Sublistᴰ.slnil h = h
  All-sublist (Sublistᴰ.cons s) h = All-sublist s h.1
  All-sublist (Sublistᴰ.cons-cons e s) h = (subst P (sym e) h.0, All-sublist s h.1)

module _ {ℓ κ} {A : Type ℓ} (R : A → A → Type κ) where
  pub Ordered-sublist : {xs ys : List A} → Sublistᴰ xs ys → Ordered R ys → Ordered R xs
  Ordered-sublist Sublistᴰ.slnil h = h
  Ordered-sublist (Sublistᴰ.cons s) h = Ordered-sublist s h.1
  Ordered-sublist (Sublistᴰ.cons-cons {l₁ = xs} e s) h =
      (subst (λ a. All (R a) xs) (sym e) (All-sublist _ s h.0), Ordered-sublist s h.1)

  -- one more element at the end
  pub Ordered-concat :
      (xs : List A) (x : A) → Ordered R xs → All (λ y. R y x) xs → Ordered R (xs ++ x ∷ [])
  Ordered-concat [] x h a = (tt, tt)
  Ordered-concat (y ∷ xs) x h a =
      (All-append (R y) xs (x ∷ []) h.0 (a.0, tt), Ordered-concat xs x h.1 a.1)

  pub Ordered-drop : (n : ℕ) (xs : List A) → Ordered R xs → Ordered R (drop n xs)
  Ordered-drop zero xs h = h
  Ordered-drop (suc n) [] h = tt
  Ordered-drop (suc n) (x ∷ xs) h = Ordered-drop n xs h.1

module _ {ℓ} {A : Type ℓ} where
  pub Sublistᴰ_refl : (xs : List A) → Sublistᴰ xs xs
  Sublistᴰ_refl [] = Sublistᴰ.slnil
  Sublistᴰ_refl (x ∷ xs) = Sublistᴰ.cons-cons refl (Sublistᴰ_refl xs)

  pub Sublistᴰ_nil : (xs : List A) → Sublistᴰ [] xs
  Sublistᴰ_nil [] = Sublistᴰ.slnil
  Sublistᴰ_nil (x ∷ xs) = Sublistᴰ.cons (Sublistᴰ_nil xs)

  pub length-sublist : {xs ys : List A} → Sublistᴰ xs ys → length xs ≤ length ys
  length-sublist Sublistᴰ.slnil = omega arith
  length-sublist (Sublistᴰ.cons s) = omega (arith, length-sublist s)
  length-sublist (Sublistᴰ.cons-cons e s) = omega (arith, length-sublist s)

  pub length-filter-sublist :
      (p : A → Bool) {xs ys : List A} → Sublistᴰ xs ys → length (filter p xs) ≤ length (filter p ys)
  unfolding filter
  length-filter-sublist p Sublistᴰ.slnil = omega arith
  length-filter-sublist p (Sublistᴰ.cons {a = a} s) = ground (arith, length-filter-sublist p s)
  length-filter-sublist p (Sublistᴰ.cons-cons {a = a} {b = b} e s) =
      ground (arith, length-filter-sublist p s, ap p e)

module _ {ℓ κ} {A : Type ℓ} {B : Type κ} (f : A → B) where
  pub map-sublist : {xs ys : List A} → Sublistᴰ xs ys → Sublistᴰ (map f xs) (map f ys)
  map-sublist Sublistᴰ.slnil = Sublistᴰ.slnil
  map-sublist (Sublistᴰ.cons s) = Sublistᴰ.cons (map-sublist s)
  map-sublist (Sublistᴰ.cons-cons e s) = Sublistᴰ.cons-cons (ap f e) (map-sublist s)

module _ {ℓ} {A : Type ℓ} (p : A → Bool) where
  pub filter-Sublistᴰ : (xs : List A) → Sublistᴰ (filter p xs) xs
  unfolding filter
  filter-Sublistᴰ [] = Sublistᴰ.slnil
  filter-Sublistᴰ (x ∷ xs) = elim (Bool-cases (p x)) [
    | inl e ↦ rw e (Sublistᴰ.cons-cons refl (filter-Sublistᴰ xs))
    | inr e ↦ rw e (Sublistᴰ.cons (filter-Sublistᴰ xs))
  ]

  pub pop_first-Sublistᴰ : (xs : List A) → Sublistᴰ (pop_first p xs).1 xs
  unfolding pop_first
  pop_first-Sublistᴰ [] = Sublistᴰ.slnil
  pop_first-Sublistᴰ (x ∷ xs) = elim (Bool-cases (p x)) [
    | inl e ↦ rw e (Sublistᴰ.cons (Sublistᴰ_refl xs))
    | inr e ↦ rw e (Sublistᴰ.cons-cons refl (pop_first-Sublistᴰ xs))
  ]
