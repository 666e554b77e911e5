-- ===== src/Prelude/Lists.antt =====
-- Lists measured by native numbers, and predicates on all members.
use Prim.Native.Nat.{ℕ, zero, suc, ◌+◌}
use mathlib.Core.Path.{◌≡◌, refl, ap, ◌∙◌}
use mathlib.Core.Logic.{◌≢◌, ◌↔◌}
use mathlib.Core.Bool.{Bool, true, false}
use mathlib.Core.List.{List, [], ◌∷◌, ◌++◌}
use native.Mathlib.Omega.{arith}

module _ {ℓ} {A : Type ℓ} where
  abbrev pub length : List A → ℕ
  length [] = 0
  length (x ∷ xs) = suc (length xs)

  abbrev pub take : ℕ → List A → List A
  take zero xs = []
  take (suc n) [] = []
  take (suc n) (x ∷ xs) = x ∷ take n xs

  abbrev pub get_or : List A → ℕ → A → A
  get_or [] i d = d
  get_or (x ∷ xs) zero d = x
  get_or (x ∷ xs) (suc i) d = get_or xs i d

  pub length-append : (xs ys : List A) → length (xs ++ ys) ≡ length xs + length ys
  length-append [] ys = omega arith
  length-append (x ∷ xs) ys = omega (arith, length-append xs ys)

module _ {ℓ κ} {A : Type ℓ} (P : A → Type κ) where
  abbrev pub All : List A → Type κ
  All [] = Unit
  All (x ∷ xs) = P x × All xs

  pub All-append : (xs ys : List A) → All xs → All ys → All (xs ++ ys)
  All-append [] ys h k = k
  All-append (x ∷ xs) ys (p, h) k = (p, All-append xs ys h k)

  pub All-append_left : (xs ys : List A) → All (xs ++ ys) → All xs
  All-append_left [] ys h = tt
  All-append_left (x ∷ xs) ys (p, h) = (p, All-append_left xs ys h)

  pub All-append_right : (xs ys : List A) → All (xs ++ ys) → All ys
  All-append_right [] ys h = h
  All-append_right (x ∷ xs) ys (p, h) = All-append_right xs ys h

module _ {ℓ} {A : Type ℓ} where
  -- A list with a member has a last one.
  pub snoc_view :
      (x : A) (xs : List A) → (init : List A) × (last : A) × ((x ∷ xs) ≡ init ++ last ∷ [])
  snoc_view x [] = ([], x, refl)
  snoc_view x (y ∷ xs) = let (init, last, e) = snoc_view y xs in (x ∷ init, last, ap (λ r. x ∷ r) e)

  pub get_or-snoc : (xs : List A) (x d : A) → get_or (xs ++ x ∷ []) (length xs) d ≡ x
  get_or-snoc [] x d = refl
  get_or-snoc (y ∷ xs) x d = get_or-snoc xs x d

  pub length-snoc : (xs : List A) (x : A) → length (xs ++ x ∷ []) ≡ length xs + 1
  length-snoc xs x = omega (arith, length-append xs (x ∷ []))

  pub take-append : (xs ys : List A) → take (length xs) (xs ++ ys) ≡ xs
  take-append [] ys = refl
  take-append (x ∷ xs) ys = ap (λ r. x ∷ r) (take-append xs ys)

  pub get_or-append :
      (xs ys : List A) (i : ℕ) (d : A) → get_or (xs ++ ys) (length xs + i) d ≡ get_or ys i d
  get_or-append [] ys i d = ap (λ n. get_or ys n d) (omega arith)
  get_or-append (x ∷ xs) ys i d =
      let e : suc (length xs) + i ≡ suc (length xs + i) = omega arith in
      ap (λ n. get_or (x ∷ xs ++ ys) n d) e ∙ get_or-append xs ys i d

  pub snoc-ne-nil : (xs : List A) (x : A) → xs ++ x ∷ [] ≢ []
  snoc-ne-nil [] x = cc
  snoc-ne-nil (y ∷ xs) x = cc

  pub snoc_inj : (xs ys : List A) (x y : A) → xs ++ x ∷ [] ≡ ys ++ y ∷ [] → (xs ≡ ys) × (x ≡ y)
  snoc_inj [] [] x y e = (refl, cc)
  snoc_inj [] (b ∷ ys) x y e = absurd (snoc-ne-nil ys y (cc))
  snoc_inj (a ∷ xs) [] x y e = absurd (snoc-ne-nil xs x (cc))
  snoc_inj (a ∷ xs) (b ∷ ys) x y e = let (p, q) = snoc_inj xs ys x y (cc) in (cc, q)

  pub snoc_of_ne-nil :
      (xs : List A) → xs ≢ [] → (init : List A) × (last : A) × (xs ≡ init ++ last ∷ [])
  snoc_of_ne-nil [] h = absurd (h refl)
  snoc_of_ne-nil (x ∷ xs) h = snoc_view x xs

module _ {ℓ κ μ} {A : Type ℓ} (P : A → Type κ) (Q : A → Type μ) (f : (x : A) → P x → Q x) where
  pub All-map : (xs : List A) → All P xs → All Q xs
  All-map [] h = tt
  All-map (x ∷ xs) (p, h) = (f x p, All-map xs h)

module _ {ℓ} {A : Type ℓ} where
  -- `len(xs) == 0`
  abbrev pub is_empty : List A → Bool
  is_empty [] = true
  is_empty (x ∷ xs) = false

  pub is_empty_iff : (xs : List A) → (is_empty xs ≡ true) ↔ (xs ≡ [])
  is_empty_iff [] = (λ h. refl, λ h. refl)
  is_empty_iff (x ∷ xs) = (λ h. absurd (cc h), λ h. absurd (cc h))

  pub is_empty_ne : (xs : List A) → xs ≢ [] → is_empty xs ≡ false
  is_empty_ne [] h = absurd (h refl)
  is_empty_ne (x ∷ xs) h = refl
