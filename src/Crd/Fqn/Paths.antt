-- ===== src/Crd/Fqn/Paths.antt =====
-- Resource IDs as lists of (kind, name) pairs: printing a list, and reading it back.
use mathlib.Core.Path.{subst}
use text.Mathlib.TextLemmas.{nil-append, cons-append, tail-eq_of_cons-eq}
use kompox.Prelude.{
  ◌+◌, ◌≡◌, ◌≢◌, refl, sym, ap, ◌∙◌, ◌||◌, inl, inr, true, false, some, String, List, [], ◌∷◌,
  arith, Bool-cases, length, All, append, slash, is_slash, NoSlash, split_slash, join_slash,
  trim_slash, has_slash, split-join, join-split, trim-slash_cons, eq-slash_cons_trim, ◌==◌, eq_iff,
  eq-false_of_ne,
}
use kompox.Crd.Types.{Kind, workspace, provider, cluster, app, box, other}
use kompox.Crd.Fqn.{
  segments, pair_up, is_odd, kind_segments, kind_short_to_full, kind_full_to_short,
}

-- The segments of a list of pairs.
abbrev pub flatten : List (String × String) → List String
flatten [] = []
flatten ((k, n) ∷ pairs) = k ∷ n ∷ flatten pairs

-- /k1/n1/k2/n2…
abbrev pub render : List (String × String) → String
render pairs = String.◌∷◌ slash (join_slash (flatten pairs))

abbrev pub Plain : String × String → Type 0
Plain p = NoSlash p.0 × NoSlash p.1

pub pair_up-flatten : (pairs : List (String × String)) → pair_up (flatten pairs) ≡ pairs
unfolding pair_up
pair_up-flatten [] = refl
pair_up-flatten ((k, n) ∷ pairs) = ap (λ r. (k, n) ∷ r) (pair_up-flatten pairs)

pub is_odd-flatten : (pairs : List (String × String)) → is_odd (flatten pairs) ≡ false
is_odd-flatten [] = refl
is_odd-flatten ((k, n) ∷ pairs) = ground (arith, is_odd-flatten pairs)

pub flatten-pair_up : (segs : List String) → is_odd segs ≡ false → flatten (pair_up segs) ≡ segs
unfolding pair_up
flatten-pair_up [] h = refl
flatten-pair_up (k ∷ []) h = ground arith
flatten-pair_up (k ∷ n ∷ segs) h = ap (λ r. k ∷ n ∷ r) (flatten-pair_up segs (ground arith))

pub length-flatten :
    (pairs : List (String × String)) → length (flatten pairs) ≡ length pairs + length pairs
length-flatten [] = omega arith
length-flatten ((k, n) ∷ pairs) = omega (arith, length-flatten pairs)

flatten-NoSlash : (pairs : List (String × String)) → All Plain pairs → All NoSlash (flatten pairs)
flatten-NoSlash [] h = tt
flatten-NoSlash ((k, n) ∷ pairs) ((p, q), h) = (p, (q, flatten-NoSlash pairs h))

append-slash-ne-empty : (s t : String) → append s (String.◌∷◌ slash t) ≢ ""
append-slash-ne-empty String.[] t = rw nil-append (cc)
append-slash-ne-empty (String.◌∷◌ c s) t = rw cons-append (cc)

join-flatten-ne-empty :
    (p : String × String) (pairs : List (String × String)) → join_slash (flatten (p ∷ pairs)) ≢ ""
unfolding join_slash
join-flatten-ne-empty (k, n) pairs = append-slash-ne-empty k _

-- What follows a first slash is split into the segments.
segments-cons : (s : String) → s ≢ "" → segments (String.◌∷◌ slash s) ≡ split_slash s
unfolding segments
segments-cons s h = rw (
  eq-false_of_ne (String.◌∷◌ slash s) "" (cc),
  eq-false_of_ne (String.◌∷◌ slash s) "/" (λ e. h (tail-eq_of_cons-eq e)),
  trim-slash_cons s,
)

pub segments-render :
    (pairs : List (String × String))
    → pairs ≢ []
    → All Plain pairs
    → segments (render pairs) ≡ flatten pairs
segments-render [] ne h = absurd (ne refl)
segments-render ((k, n) ∷ pairs) ne h =
    segments-cons _ (join-flatten-ne-empty (k, n) pairs)
    ∙ split-join (flatten ((k, n) ∷ pairs)) (cc) (flatten-NoSlash ((k, n) ∷ pairs) h)

pub kind_segments-render :
    (pairs : List (String × String))
    → pairs ≢ []
    → All Plain pairs
    → kind_segments (render pairs) ≡ pairs
unfolding kind_segments
kind_segments-render pairs ne h =
    rw (segments-render pairs ne h) (rw (is_odd-flatten pairs) (pair_up-flatten pairs))

-- Segments come from a split, so joining them gives the text after the first slash.
join-segments : (id : String) → segments id ≢ [] → join_slash (segments id) ≡ trim_slash id
unfolding segments
join-segments id ne = elim (Bool-cases (id == "" || id == "/")) [
  | inl bare ↦ absurd (ne (rw bare))
  | inr long ↦ rw long (join-split (trim_slash id))
]

pub render-segments :
    (id : String)
    → has_slash id ≡ true
    → is_odd (segments id) ≡ false
    → segments id ≢ []
    → render (pair_up (segments id)) ≡ id
render-segments id h even ne =
    rw (flatten-pair_up (segments id) even)
      (ap (λ s. String.◌∷◌ slash s) (join-segments id ne) ∙ sym (eq-slash_cons_trim id h))

pub kind_short_inv :
    (k : String) (kind : Kind) → kind_short_to_full k ≡ some kind → kind_full_to_short kind ≡ some k
unfolding kind_short_to_full kind_full_to_short
kind_short_inv k kind e =
    ground (arith, eq_iff k "ws", eq_iff k "prv", eq_iff k "cls", eq_iff k "app", eq_iff k "box")

NoSlash-of_some : {a k : String} → some a ≡ some k → NoSlash a → NoSlash k
NoSlash-of_some e = subst NoSlash (cc)

short-NoSlash : (kind : Kind) (k : String) → kind_full_to_short kind ≡ some k → NoSlash k
unfolding kind_full_to_short is_slash
short-NoSlash workspace k e = NoSlash-of_some e (refl, (refl, tt))
short-NoSlash provider k e = NoSlash-of_some e (refl, (refl, (refl, tt)))
short-NoSlash cluster k e = NoSlash-of_some e (refl, (refl, (refl, tt)))
short-NoSlash app k e = NoSlash-of_some e (refl, (refl, (refl, tt)))
short-NoSlash box k e = NoSlash-of_some e (refl, (refl, (refl, tt)))
short-NoSlash (other s) k e = cc

pub kind_short-NoSlash : (k : String) (kind : Kind) → kind_short_to_full k ≡ some kind → NoSlash k
kind_short-NoSlash k kind e = short-NoSlash kind k (kind_short_inv k kind e)

full_of_some :
    {a k : String} {kind : Kind}
    → some a ≡ some k
    → kind_short_to_full a ≡ some kind
    → kind_short_to_full k ≡ some kind
full_of_some {kind} e = subst (λ s. kind_short_to_full s ≡ some kind) (cc)

pub kind_full_inv :
    (kind : Kind) (k : String) → kind_full_to_short kind ≡ some k → kind_short_to_full k ≡ some kind
unfolding kind_full_to_short kind_short_to_full
kind_full_inv workspace k e = full_of_some e refl
kind_full_inv provider k e = full_of_some e refl
kind_full_inv cluster k e = full_of_some e refl
kind_full_inv app k e = full_of_some e refl
kind_full_inv box k e = full_of_some e refl
kind_full_inv (other s) k e = cc
