-- ===== src/Crd/Fqn/Parents.antt =====
-- The text of an ID from its parent and its own pair, and back.
use text.Mathlib.TextLemmas.{nil-append, cons-append, append_assoc}
use kompox.Prelude.{
  ℕ, ◌+◌, ◌-◌, ◌≡◌, ◌≢◌, ◌⊎◌, refl, sym, ap, ◌∙◌, inl, inr, String, List, [], ◌∷◌, ◌++◌, arith, leb,
  if◌then◌else◌, length, take, take-append, length-append, All, snoc-ne-nil, append, slash,
  join_slash, ok, err, ◌==◌, eq_iff,
}
use kompox.Crd.Types.{Kind, workspace, provider, cluster, app, box, other}
use kompox.Crd.Fqn.{parent_required, parent_of, parent_fqn, construct}
use kompox.Crd.Fqn.Paths.{flatten, render, Plain, segments-render}
use kompox.Crd.Fqn.Chains.{lineage, kinds, flatten-append}

-- The text of the parents: empty for none.
abbrev pub render_parents : List (String × String) → String
render_parents [] = ""
render_parents (p ∷ pairs) = render (p ∷ pairs)

pub parent_of-append :
    (segs : List String) (k n : String)
    → parent_of (segs ++ k ∷ n ∷ [])
      ≡ (if leb (length segs) 0 then "" else append "/" (join_slash segs))
parent_of-append segs k n = go (length (segs ++ k ∷ n ∷ [])) (length-append segs (k ∷ n ∷ []))
  where
    go :
        (l : ℕ)
        → l ≡ length segs + 2
        → (if leb l 2 then "" else append "/" (join_slash (take (l - 2) (segs ++ k ∷ n ∷ []))))
          ≡ (if leb (length segs) 0 then "" else append "/" (join_slash segs))
    go l e =
        let i : l - 2 ≡ length segs = omega arith in
        rw (i, take-append segs (k ∷ n ∷ [])) (ground arith)

pub parent_of-append_cons :
    (j : String) (segs : List String) (k n : String)
    → parent_of ((j ∷ segs) ++ k ∷ n ∷ []) ≡ append "/" (join_slash (j ∷ segs))
parent_of-append_cons j segs k n = parent_of-append (j ∷ segs) k n ∙ ground arith

pub slash-append : (s : String) → append "/" s ≡ String.◌∷◌ slash s
slash-append s = cons-append slash "" s ∙ ap (String.◌∷◌ slash) (nil-append s)

pub parent_fqn-render :
    (init : List (String × String)) (k n : String)
    → All Plain (init ++ (k, n) ∷ [])
    → parent_fqn (render (init ++ (k, n) ∷ [])) ≡ render_parents init
unfolding parent_fqn
parent_fqn-render [] k n h = rw (segments-render ((k, n) ∷ []) (cc) h) (parent_of-append [] k n)
parent_fqn-render ((j, m) ∷ init) k n h =
    rw (segments-render ((j, m) ∷ init ++ (k, n) ∷ []) (cc) h) (
      rw (flatten-append init ((k, n) ∷ []))
        (parent_of-append_cons j (m ∷ flatten init) k n ∙ slash-append _))

pub join-append :
    (x : String) (xs : List String) (y : String) (ys : List String)
    → join_slash ((x ∷ xs) ++ (y ∷ ys))
      ≡ append (join_slash (x ∷ xs)) (String.◌∷◌ slash (join_slash (y ∷ ys)))
unfolding join_slash
join-append x [] y ys = refl
join-append x (z ∷ xs) y ys =
    rw (join-append z xs y ys) (sym (append_assoc x _ _ ∙ ap (append x) (cons-append slash _ _)))

-- What BuildResourceID appends to the parent's ID.
abbrev pub tail_of : String → String → String
tail_of k n = append "/" (append k (append "/" n))

pub tail_of_lem : (k n : String) → tail_of k n ≡ String.◌∷◌ slash (join_slash (k ∷ n ∷ []))
unfolding join_slash
tail_of_lem k n = slash-append _ ∙ ap (λ s. String.◌∷◌ slash (append k s)) (slash-append n)

pub render-snoc :
    (p : String × String) (init : List (String × String)) (k n : String)
    → render ((p ∷ init) ++ (k, n) ∷ []) ≡ append (render (p ∷ init)) (tail_of k n)
render-snoc (j, m) init k n =
    ap (λ s. String.◌∷◌ slash (join_slash s)) (flatten-append ((j, m) ∷ init) ((k, n) ∷ []))
    ∙ ap (String.◌∷◌ slash) (join-append j (m ∷ flatten init) k (n ∷ []))
    ∙ sym (cons-append slash _ _)
    ∙ ap (append (render ((j, m) ∷ init))) (sym (tail_of_lem k n))

pub kind_cases : (kind : Kind) → (kind ≡ workspace) ⊎ (kind ≢ workspace)
kind_cases workspace = inl refl
kind_cases provider = inr (cc)
kind_cases cluster = inr (cc)
kind_cases app = inr (cc)
kind_cases box = inr (cc)
kind_cases (other s) = inr (cc)

pub construct_child :
    (parent : String) (kind : Kind) (short name : String)
    → kind ≢ workspace
    → construct parent kind short name
      ≡ (if parent == "" then err parent_required else ok (append parent (tail_of short name)))
construct_child parent workspace short name h = absurd (h refl)
construct_child parent provider short name h = refl
construct_child parent cluster short name h = refl
construct_child parent app short name h = refl
construct_child parent box short name h = refl
construct_child parent (other s) short name h = refl

pub construct_child_inv :
    (parent short name : String) {f : String}
    → (if parent == "" then err parent_required else ok (append parent (tail_of short name))) ≡ ok f
    → append parent (tail_of short name) ≡ f
construct_child_inv parent short name h = ground arith

pub construct_root :
    (parent short name : String) {f : String}
    → construct parent workspace short name ≡ ok f
    → parent ≡ ""
construct_root parent short name h = ground (arith, eq_iff parent "")

pub root_text : (name : String) → render (("ws", name) ∷ []) ≡ append "/ws/" name
unfolding join_slash
root_text name =
    ap (String.◌∷◌ slash)
      (ap (append "ws") (sym (slash-append name)) ∙ sym (append_assoc "ws" "/" name))
    ∙ sym (cons-append slash "ws/" name)

pub workspace_line :
    (init : List (String × String)) (own : String)
    → kinds init ++ own ∷ [] ≡ "ws" ∷ []
    → (init ≡ []) × (own ≡ "ws")
workspace_line [] own h = (refl, cc)
workspace_line ((k, n) ∷ init) own h = absurd (snoc-ne-nil (kinds init) own (cc))

pub child_line :
    (kind : Kind) (init : List (String × String)) (own : String)
    → kinds init ++ own ∷ [] ≡ lineage kind
    → kind ≢ workspace
    → init ≢ []
child_line workspace init own line h = absurd (h refl)
child_line provider (p ∷ init) own line h = cc
child_line cluster (p ∷ init) own line h = cc
child_line app (p ∷ init) own line h = cc
child_line box (p ∷ init) own line h = cc
child_line provider [] own line h = cc
child_line cluster [] own line h = cc
child_line app [] own line h = cc
child_line box [] own line h = cc
child_line (other s) init own line h = absurd (snoc-ne-nil (kinds init) own line)

pub render_parents_lem :
    (init : List (String × String)) (k n : String)
    → init ≢ []
    → (render_parents init ≢ "")
      × (render (init ++ (k, n) ∷ []) ≡ append (render_parents init) (tail_of k n))
render_parents_lem [] k n h = absurd (h refl)
render_parents_lem (p ∷ init) k n h = (cc, render-snoc p init k n)
