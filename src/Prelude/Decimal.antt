-- ===== src/Prelude/Decimal.antt =====
-- Decimal printing (%d), and why two numbers are not printed alike.
use Prim.Native.Nat.{ℕ, zero, suc, ◌+◌, ◌-◌, ◌*◌, ◌/◌, ◌%◌, ◌≤◌, ◌<◌}
use Prim.Native.Char.{Char, code}
use Prim.Native.String.{String, [], ◌∷◌}
use mathlib.Core.Path.{◌≡◌, refl, sym, ap, ◌∙◌}
use mathlib.Core.Logic.{◌≢◌, inl, inr}
use native.Mathlib.Omega.{arith}
use text.Mathlib.TextLemmas.{nil-append, cons-append, head-eq_of_cons-eq, tail-eq_of_cons-eq}
use kompox.Prelude.Tests.{ltb, Bool-cases, if◌then◌else◌}
use kompox.Prelude.Text.{append}

abbrev digit : ℕ → Char
digit zero = "0"
digit (suc zero) = "1"
digit (suc (suc zero)) = "2"
digit (suc (suc (suc zero))) = "3"
digit (suc (suc (suc (suc zero)))) = "4"
digit (suc (suc (suc (suc (suc zero))))) = "5"
digit (suc (suc (suc (suc (suc (suc zero)))))) = "6"
digit (suc (suc (suc (suc (suc (suc (suc zero))))))) = "7"
digit (suc (suc (suc (suc (suc (suc (suc (suc zero)))))))) = "8"
digit _ = "9"

-- The digits of `n` before `acc`; `n < fuel` is enough.
decimal_from : ℕ → ℕ → String → String
decimal_from zero n acc = acc
decimal_from (suc fuel) n acc =
    let rest = decimal_from fuel (n / 10) (digit (n % 10) ∷ acc) in
    if ltb n 10 then digit (n % 10) ∷ acc else rest

unfoldable pub decimal : ℕ → String
unfolding decimal_from
decimal n = decimal_from (suc n) n ""

code-digit-ge : (d : ℕ) → 48 ≤ code (digit d)
code-digit-ge zero = omega arith
code-digit-ge (suc zero) = omega arith
code-digit-ge (suc (suc zero)) = omega arith
code-digit-ge (suc (suc (suc zero))) = omega arith
code-digit-ge (suc (suc (suc (suc zero)))) = omega arith
code-digit-ge (suc (suc (suc (suc (suc zero))))) = omega arith
code-digit-ge (suc (suc (suc (suc (suc (suc zero)))))) = omega arith
code-digit-ge (suc (suc (suc (suc (suc (suc (suc zero))))))) = omega arith
code-digit-ge (suc (suc (suc (suc (suc (suc (suc (suc zero)))))))) = omega arith
code-digit-ge (suc (suc (suc (suc (suc (suc (suc (suc (suc d))))))))) = omega arith

-- The number that digits stand for, after those read as `v`.
value : String → ℕ → ℕ
value [] v = v
value (c ∷ s) v = value s (10 * v + (code c - 48))

code-digit : (d : ℕ) → d < 10 → code (digit d) - 48 ≡ d
code-digit zero h = refl
code-digit (suc zero) h = refl
code-digit (suc (suc zero)) h = refl
code-digit (suc (suc (suc zero))) h = refl
code-digit (suc (suc (suc (suc zero)))) h = refl
code-digit (suc (suc (suc (suc (suc zero))))) h = refl
code-digit (suc (suc (suc (suc (suc (suc zero)))))) h = refl
code-digit (suc (suc (suc (suc (suc (suc (suc zero))))))) h = refl
code-digit (suc (suc (suc (suc (suc (suc (suc (suc zero)))))))) h = refl
code-digit (suc (suc (suc (suc (suc (suc (suc (suc (suc d))))))))) h = omega arith

value-decimal_from :
    (fuel n : ℕ) (acc : String) → n < fuel → value (decimal_from fuel n acc) 0 ≡ value acc n
unfolding decimal_from value
value-decimal_from zero n acc h = absurd (omega arith)
value-decimal_from (suc fuel) n acc h = elim (Bool-cases (ltb n 10)) [
  | inl small ↦ rw small (ap (value acc) (ground (arith, code-digit (n % 10) (omega arith))))
  | inr large ↦ rw large (
      value-decimal_from fuel (n / 10) (digit (n % 10) ∷ acc) (ground arith)
      ∙ ap (value acc) (ground (arith, code-digit (n % 10) (omega arith))))
]

value-decimal : (n : ℕ) → value (decimal n) 0 ≡ n
unfolding decimal value
value-decimal n = value-decimal_from (suc n) n "" (omega arith)

pub decimal_inj : (m n : ℕ) → decimal m ≡ decimal n → m ≡ n
decimal_inj m n e = sym (value-decimal m) ∙ ap (λ s. value s 0) e ∙ value-decimal n

-- A text without "-".
abbrev pub NoDash : String → Type 0
NoDash [] = Unit
NoDash (c ∷ s) = (code c ≢ b'-') × NoDash s

decimal_from-NoDash : (fuel n : ℕ) (acc : String) → NoDash acc → NoDash (decimal_from fuel n acc)
unfolding decimal_from
decimal_from-NoDash zero n acc h = h
decimal_from-NoDash (suc fuel) n acc h =
    let digit_ok : code (digit (n % 10)) ≢ b'-' =
      (λ e. absurd (omega (arith, code-digit-ge (n % 10)))) in
    elim (Bool-cases (ltb n 10)) [
      | inl small ↦ rw small (digit_ok, h)
      | inr large ↦
          rw large (decimal_from-NoDash fuel (n / 10) (digit (n % 10) ∷ acc) (digit_ok, h))
    ]

pub decimal-NoDash : (n : ℕ) → NoDash (decimal n)
unfolding decimal
decimal-NoDash n = decimal_from-NoDash (suc n) n "" tt

abbrev pub dash : Char
dash = "-"

-- Two texts without "-" in front of a "-" are told apart.
pub dash_inj :
    (a b : String) {s t : String}
    → NoDash a
    → NoDash b
    → append a (dash ∷ s) ≡ append b (dash ∷ t)
    → (a ≡ b) × (s ≡ t)
dash_inj [] [] p q e = (refl, tail-eq_of_cons-eq (sym (nil-append _) ∙ e ∙ nil-append _))
dash_inj [] (d ∷ b) p q e =
    absurd (q.0 (sym (ap code (head-eq_of_cons-eq (sym (nil-append _) ∙ e ∙ cons-append d b _)))))
dash_inj (c ∷ a) [] p q e =
    absurd (p.0 (ap code (head-eq_of_cons-eq (sym (cons-append c a _) ∙ e ∙ nil-append _))))
dash_inj (c ∷ a) (d ∷ b) p q e =
    let e' = sym (cons-append c a _) ∙ e ∙ cons-append d b _ in
    let (same, rest) = dash_inj a b p.1 q.1 (tail-eq_of_cons-eq e') in
    (cc (head-eq_of_cons-eq e', same), rest)
