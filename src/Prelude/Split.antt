-- ===== src/Prelude/Split.antt =====
-- Splitting and joining at "/" undo one another.
use Prim.Native.Char.{Char}
use Prim.Native.String.{String}
use mathlib.Core.Bool.{true, false}
use mathlib.Core.Path.{◌≡◌, refl, ap, ◌∙◌}
use mathlib.Core.Logic.{◌≢◌, inl, inr}
use mathlib.Core.List.{List, [], ◌∷◌}
use native.Mathlib.Omega.{arith}
use text.Mathlib.Text.{◌==◌}
use text.Mathlib.TextEquality.{Char-path, eq_iff}
use text.Mathlib.TextLemmas.{nil-append, cons-append}
use kompox.Prelude.Tests.{Bool-cases}
use kompox.Prelude.Lists.{All}
use kompox.Prelude.Text.{
  append, slash, is_slash, NoSlash, push_head, split_slash, trim_slash, has_slash, join_slash,
}

pub eq-slash_of_is_slash : (c : Char) → is_slash c ≡ true → c ≡ slash
unfolding is_slash
eq-slash_of_is_slash c h = Char-path c slash (ground arith)

push_head-ne-nil : (c : Char) (parts : List String) → push_head c parts ≢ []
push_head-ne-nil c [] = cc
push_head-ne-nil c (s ∷ parts) = cc

pub split_slash-ne-nil : (s : String) → split_slash s ≢ []
unfolding split_slash
split_slash-ne-nil String.[] = cc
split_slash-ne-nil (String.◌∷◌ c s) = elim (Bool-cases (is_slash c)) [
  | inl here ↦ rw here (cc)
  | inr other ↦ rw other (push_head-ne-nil c (split_slash s))
]

push_head-NoSlash :
    (c : Char) (parts : List String)
    → is_slash c ≡ false
    → All NoSlash parts
    → All NoSlash (push_head c parts)
push_head-NoSlash c [] h k = ((h, tt), tt)
push_head-NoSlash c (s ∷ parts) h (p, k) = ((h, p), k)

pub split_slash-NoSlash : (s : String) → All NoSlash (split_slash s)
unfolding split_slash
split_slash-NoSlash String.[] = (tt, tt)
split_slash-NoSlash (String.◌∷◌ c s) = elim (Bool-cases (is_slash c)) [
  | inl here ↦ rw here (tt, split_slash-NoSlash s)
  | inr other ↦ rw other (push_head-NoSlash c (split_slash s) other (split_slash-NoSlash s))
]

join-push_head :
    (c : Char) (parts : List String)
    → parts ≢ []
    → join_slash (push_head c parts) ≡ String.◌∷◌ c (join_slash parts)
unfolding join_slash
join-push_head c [] h = absurd (h refl)
join-push_head c (s ∷ []) h = refl
join-push_head c (s ∷ t ∷ parts) h = rw cons-append

join_slash-nil_cons :
    (parts : List String)
    → parts ≢ []
    → join_slash ("" ∷ parts) ≡ String.◌∷◌ slash (join_slash parts)
unfolding join_slash
join_slash-nil_cons [] h = absurd (h refl)
join_slash-nil_cons (s ∷ parts) h = nil-append _

cong_cons : {c : Char} {s t : String} → c ≡ slash → s ≡ t → String.◌∷◌ slash s ≡ String.◌∷◌ c t
cong_cons p q = cc

pub join-split : (s : String) → join_slash (split_slash s) ≡ s
unfolding split_slash join_slash
join-split String.[] = refl
join-split (String.◌∷◌ c s) = elim (Bool-cases (is_slash c)) [
  | inl here ↦ rw here (
      join_slash-nil_cons _ (split_slash-ne-nil s)
      ∙ cong_cons (eq-slash_of_is_slash c here) (join-split s))
  | inr other ↦
      rw other (join-push_head c _ (split_slash-ne-nil s) ∙ ap (String.◌∷◌ c) (join-split s))
]

-- A text without a slash in front of a separator is the first part.
split_slash-append :
    (s t : String) → NoSlash s → split_slash (append s (String.◌∷◌ slash t)) ≡ s ∷ split_slash t
unfolding split_slash is_slash
split_slash-append String.[] t h = rw nil-append
split_slash-append (String.◌∷◌ c s) t (p, h) =
    rw (cons-append, split_slash) (rw p (rw (split_slash-append s t h)))

split_slash_of_NoSlash : (s : String) → NoSlash s → split_slash s ≡ s ∷ []
unfolding split_slash
split_slash_of_NoSlash String.[] h = refl
split_slash_of_NoSlash (String.◌∷◌ c s) (p, h) = rw p (rw (split_slash_of_NoSlash s h))

pub split-join :
    (parts : List String) → parts ≢ [] → All NoSlash parts → split_slash (join_slash parts) ≡ parts
unfolding join_slash
split-join [] ne h = absurd (ne refl)
split-join (s ∷ []) ne (p, h) = split_slash_of_NoSlash s p
split-join (s ∷ t ∷ parts) ne (p, h) =
    split_slash-append s _ p ∙ ap (λ r. s ∷ r) (split-join (t ∷ parts) (cc) h)

pub trim-slash_cons : (s : String) → trim_slash (String.◌∷◌ slash s) ≡ s
unfolding trim_slash is_slash
trim-slash_cons s = refl

-- A text with the prefix "/" is a slash before the trimmed text.
pub eq-slash_cons_trim : (s : String) → has_slash s ≡ true → s ≡ String.◌∷◌ slash (trim_slash s)
unfolding has_slash trim_slash
eq-slash_cons_trim String.[] h = cc
eq-slash_cons_trim (String.◌∷◌ c s) h = rw (h, eq-slash_of_is_slash c h)

pub ne_of_eq-false : (s t : String) → (s == t) ≡ false → s ≢ t
ne_of_eq-false s t h same = absurd (cc ((eq_iff s t).1 same))

-- The test of two different texts fails.
pub eq-false_of_ne : (s t : String) → s ≢ t → (s == t) ≡ false
eq-false_of_ne s t h = elim (Bool-cases (s == t)) [
  | inl same ↦ absurd (h ((eq_iff s t).0 same))
  | inr differ ↦ differ
]
