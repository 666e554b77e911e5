-- ===== src/Prelude/Loops.antt =====
-- Loops over a slice that convert each item or return the first error.
use Prim.Native.Nat.{ℕ, ◌+◌}
use mathlib.Core.Path.{◌≡◌, refl, sym, ap, ◌∙◌}
use mathlib.Core.Logic.{◌↔◌}
use mathlib.Core.Bool.{Bool, true, false}
use mathlib.Core.List.{List, [], ◌∷◌, map}
use kompox.Prelude.Lists.{All}
use kompox.Prelude.Results.{Result, ok, err, guard, ◌>>=◌, ◌>>◌, ok_inj}

-- `for i, x := range xs { …; ys = append(ys, y) }`
abbrev pub each {ℓ κ μ} :
    {E : Type κ} {A : Type ℓ} {B : Type μ} → (ℕ → A → Result E B) → ℕ → List A → Result E (List B)
each f i [] = ok []
each f i (x ∷ xs) = do y ← f i x; ys ← each f (i + 1) xs; ok (y ∷ ys)

-- What a step that succeeds is: the first part succeeded, and so did the rest.
pub bind-eq-ok {ℓ κ μ} :
    {E : Type κ} {A : Type ℓ} {B : Type μ} (m : Result E A) (f : A → Result E B) (b : B)
    → (m >>= f) ≡ ok b
    → (a : A) × (m ≡ ok a) × (f a ≡ ok b)
bind-eq-ok (ok a) f b h = (a, refl, h)
bind-eq-ok (err e) f b h = absurd (cc h)

module _ {ℓ κ} {E : Type κ} {A : Type ℓ} where
  -- A step without a result succeeds, and so does what follows it.
  pub seq_iff :
      (m : Result E (Unit {0})) (k : Result E A) (y : A)
      → ((m >> k) ≡ ok y) ↔ ((m ≡ ok tt) × (k ≡ ok y))
  seq_iff (ok tt) k y = (λ h. (refl, h), λ (_, h). h)
  seq_iff (err e) k y = (λ h. absurd (cc h), λ (h, _). absurd (cc h))

  pub guard_iff :
      (b : Bool) (e : E) (k : Result E A) (y : A)
      → ((guard b e >> k) ≡ ok y) ↔ ((b ≡ true) × (k ≡ ok y))
  guard_iff true e k y = (λ h. (refl, h), λ (_, h). h)
  guard_iff false e k y = (λ h. absurd (cc h), λ (h, _). absurd (cc h))

module _ {ℓ κ μ ν} {E : Type κ} {A : Type ℓ} {B : Type μ} (f : ℕ → A → Result E B) where
  -- The loop succeeds exactly if every item does, and gives the items' results.
  pub each_iff :
      (P : A → Type ν) (g : A → B)
      → ((i : ℕ) (x : A) (y : B) → (f i x ≡ ok y) ↔ (P x × (y ≡ g x)))
      → (i : ℕ) (xs : List A) (ys : List B) → (each f i xs ≡ ok ys) ↔ (All P xs × (ys ≡ map g xs))
  each_iff P g one i [] ys = (λ h. (tt, sym (ok_inj h)), λ (_, e). ap ok (sym e))
  each_iff P g one i (x ∷ xs) ys = (
    λ h.
        let (y, first, h') = bind-eq-ok (f i x) _ ys h in
        let (zs, rest, e) = bind-eq-ok (each f (i + 1) xs) _ ys h' in
        let (p, same) = (one i x y).0 first in
        let (ps, sames) = (each_iff P g one (i + 1) xs zs).0 rest in
        ((p, ps), sym (ok_inj e) ∙ ap (λ t. y ∷ t) sames ∙ ap (λ t. t ∷ map g xs) same),
    λ ((p, ps), e).
        rw ((one i x (g x)).1 (p, refl))
          (rw ((each_iff P g one (i + 1) xs (map g xs)).1 (ps, refl)) (ap ok (sym e))),
  )

abbrev pub Succeeds {ℓ κ} : {E : Type κ} {A : Type ℓ} → Result E A → Type (ℓ ⊔ κ)
Succeeds {A = A} r = (a : A) × (r ≡ ok a)

module _ {ℓ κ μ} {E : Type κ} {A : Type ℓ} {B : Type μ} where
  -- A block succeeds if its first step does and what follows it does.
  pub bind-Succeeds_iff {ν} :
      (P : Type ν) (m : Result E A) (f : A → Result E B)
      → ((a : A) → Succeeds (f a) ↔ P)
      → Succeeds (m >>= f) ↔ (Succeeds m × P)
  bind-Succeeds_iff P (ok a) f rest = (λ h. ((a, refl), (rest a).0 h), λ (_, p). (rest a).1 p)
  bind-Succeeds_iff P (err e) f rest = (λ (b, h). absurd (cc h), λ ((a, h), _). absurd (cc h))

module _ {ℓ κ} {E : Type κ} {A : Type ℓ} where
  pub guard-Succeeds_iff :
      (b : Bool) (e : E) (k : Result E A) → Succeeds (guard b e >> k) ↔ ((b ≡ true) × Succeeds k)
  guard-Succeeds_iff true e k = (λ h. (refl, h), λ (_, h). h)
  guard-Succeeds_iff false e k = (λ (a, h). absurd (cc h), λ (h, _). absurd (cc h))

pub guard-Succeeds {κ} : {E : Type κ} (b : Bool) (e : E) → Succeeds (guard b e) ↔ (b ≡ true)
guard-Succeeds true e = (λ h. refl, λ h. (tt, refl))
guard-Succeeds false e = (λ (a, h). absurd (cc h), λ h. absurd (cc h))

module _ {ℓ κ μ} {E : Type κ} {A : Type ℓ} {B : Type μ} where
  pub each-Succeeds_iff {ν} :
      (P : A → Type ν) (f : ℕ → A → Result E B)
      → ((i : ℕ) (x : A) → Succeeds (f i x) ↔ P x)
      → (i : ℕ) (xs : List A) → Succeeds (each f i xs) ↔ All P xs
  each-Succeeds_iff P f one i [] = (λ h. tt, λ h. ([], refl))
  each-Succeeds_iff P f one i (x ∷ xs) =
      let block =
        bind-Succeeds_iff (All P xs) (f i x) (λ y. each f (i + 1) xs >>= λ ys. ok (y ∷ ys))
          (λ y.
            let rest =
              bind-Succeeds_iff (Unit {0}) (each f (i + 1) xs) (λ ys. ok (y ∷ ys))
                (λ ys. (λ h. tt, λ h. (y ∷ ys, refl))) in
            let later = each-Succeeds_iff P f one (i + 1) xs in
            (λ h. later.0 (rest.0 h).0, λ h. rest.1 (later.1 h, tt))) in
      (
        λ h. let (first, later) = block.0 h in ((one i x).0 first, later),
        λ (p, ps). block.1 ((one i x).1 p, ps),
      )
