-- ===== src/Prelude/Actions.antt =====
-- Code that calls a port: a function from a world to a result and the world after it, with do
-- blocks. An error ends the block, in the world that it happened in.
use mathlib.Core.Path.{subst, ◌≡◌, refl, sym, ap, ◌∙◌}
use mathlib.Core.Logic.{◌⊎◌, inl, inr}
use mathlib.Core.Bool.{Bool, true, false}
use kompox.Prelude.Results.{Result, ok, err, Result-cases}

abbrev pub Action : Type 0 → Type 0 → Type 0 → Type 0
Action W E A = W → Result E A × W

infixl 5 ◌>>=◌ ◌>>◌
abbrev pub ◌>>=◌ : {W E A B : Type 0} → Action W E A → (A → Action W E B) → Action W E B
(m >>= f) w = let (r, w') = m w in elim r [ ok a ↦ f a w' | err e ↦ (err e, w') ]

abbrev pub ◌>>◌ : {W E B : Type 0} → Action W E (Unit {0}) → Action W E B → Action W E B
m >> k = m >>= λ _. k

abbrev pub pure : {W E A : Type 0} → A → Action W E A
pure a w = (ok a, w)

abbrev pub lift : {W E A : Type 0} → Result E A → Action W E A
lift r w = (r, w)

abbrev pub require : {W E : Type 0} → Bool → E → Action W E (Unit {0})
require true e w = (ok tt, w)
require false e w = (err e, w)

-- A call whose error is wrapped.
abbrev pub wrapped : {W E F A : Type 0} → (F → E) → Action W F A → Action W E A
wrapped wrap m w = let (r, w') = m w in (elim r [ ok a ↦ ok a | err e ↦ err (wrap e) ], w')

-- A block fails in its first step or goes on after it.
pub bind-cases :
    {W E A B : Type 0} (m : Action W E A) (f : A → Action W E B) (w : W)
    → ((e : E) × ((m w).0 ≡ err e) × ((m >>= f) w ≡ (err e, (m w).1)))
      ⊎ ((a : A) × ((m w).0 ≡ ok a) × ((m >>= f) w ≡ f a (m w).1))
bind-cases m f w = elim (Result-cases (m w).0) [
  | inl (a, done) ↦ inr (a, done, rw (done, ◌>>=◌) refl)
  | inr (e, failed) ↦ inl (e, failed, rw (failed, ◌>>=◌) refl)
]

-- A block that succeeds did so in its first step, and is what follows it.
pub bind-ok :
    {W E A B : Type 0} (m : Action W E A) (f : A → Action W E B) {w : W} {b : B}
    → ((m >>= f) w).0 ≡ ok b
    → (a : A) × ((m w).0 ≡ ok a) × ((m >>= f) w ≡ f a (m w).1)
bind-ok m f {w = w} h = elim (bind-cases m f w) [
  | inl (e, failed, out) ↦ absurd (cc (sym (ap (λ o. o.0) out) ∙ h))
  | inr done ↦ done
]

pub wrapped-ok :
    {W E F A : Type 0} (wrap : F → E) (m : Action W F A) {w : W} {a : A}
    → (wrapped wrap m w).0 ≡ ok a
    → (m w).0 ≡ ok a
wrapped-ok wrap m {w = w} h = elim (Result-cases (m w).0) [
  | inl (b, done) ↦ cc (done, rw (done, wrapped) at h)
  | inr (e, failed) ↦ absurd (cc (rw (failed, wrapped) at h))
]

pub require-ok :
    {W E B : Type 0} (test : Bool) (e : E) (k : Action W E B) (w : W) {b : B}
    → ((require test e >> k) w).0 ≡ ok b
    → (test ≡ true) × ((require test e >> k) w ≡ k w)
require-ok true e k w h = (refl, refl)
require-ok false e k w h = absurd (cc h)

-- A block changes nothing if no step of it does.
pub bind-leaves :
    {W E A B : Type 0} (m : Action W E A) (f : A → Action W E B) (w : W)
    → (m w).1 ≡ w
    → ((a : A) → (m w).0 ≡ ok a → (f a w).1 ≡ w)
    → ((m >>= f) w).1 ≡ w
bind-leaves m f w same rest = elim (bind-cases m f w) [
  | inl (e, failed, out) ↦ ap (λ o. o.1) out ∙ same
  | inr (a, done, out) ↦ ap (λ o. o.1) out ∙ ap (λ u. (f a u).1) same ∙ rest a done
]

pub bind-found :
    {W E A B : Type 0} (m : Action W E A) (f : A → Action W E B) (w u : W) (a : A)
    → m w ≡ (ok a, u)
    → (m >>= f) w ≡ f a u
bind-found m f w u a h = rw (ap (λ o. o.0) h, ◌>>=◌) (ap (f a) (ap {A = _ × _} (λ o. o.1) h))

pub require-leaves : {W E : Type 0} (test : Bool) (e : E) (w : W) → (require test e w).1 ≡ w
require-leaves true e w = refl
require-leaves false e w = refl

-- A block keeps what its first step keeps, if the rest does.
pub bind-Keeps :
    {W E A B : Type 0} (P : W → Type 0) (m : Action W E A) (f : A → Action W E B) (w : W)
    → P (m w).1
    → ((a : A) → (m w).0 ≡ ok a → P (f a (m w).1).1)
    → P ((m >>= f) w).1
bind-Keeps P m f w first rest = elim (bind-cases m f w) [
  | inl (e, failed, out) ↦ subst (λ o. P o.1) (sym out) first
  | inr (a, done, out) ↦ subst (λ o. P o.1) (sym out) (rest a done)
]

pub bind-failed :
    {W E A B : Type 0} (m : Action W E A) (f : A → Action W E B) (w u : W) (e : E)
    → m w ≡ (err e, u)
    → (m >>= f) w ≡ (err e, u)
bind-failed m f w u e h = rw (ap (λ o. o.0) h, ◌>>=◌) (ap {A = _ × _} (λ o. (err e, o.1)) h)
