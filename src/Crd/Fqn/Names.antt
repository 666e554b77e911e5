-- ===== src/Crd/Fqn/Names.antt =====
-- The accessors of an accepted ID give the names on its way from the root.
use kompox.Prelude.{
  ◌≡◌, refl, sym, ap, ◌∙◌, String, List, [], ◌∷◌, ◌++◌, length, snoc-ne-nil, take, get_or, ok,
  arith, eq_iff,
}
use kompox.Labels.{LabelRules}
use kompox.Crd.Types.{Kind, workspace, provider, cluster, app, box, other}
use kompox.Crd.Fqn.{
  kind_segments, segments, workspace_name, provider_name, cluster_name, app_name, box_name,
  validate_resource_id,
}
use kompox.Crd.Fqn.Paths.{flatten, segments-render, kind_segments-render}
use kompox.Crd.Fqn.Chains.{lineage, kinds, length-kinds}
use kompox.Crd.Fqn.Validate.{kinds-append, IsResource-Plain, validate-eq-ok_iff}

abbrev pub names : List (String × String) → List String
names [] = []
names ((k, n) ∷ pairs) = n ∷ names pairs

-- The names, with the empty text for what the ID does not reach.
abbrev pub five_names : List String → List String
five_names ns =
    get_or ns 0 "" ∷ get_or ns 1 "" ∷ get_or ns 2 "" ∷ get_or ns 3 "" ∷ get_or ns 4 "" ∷ []

abbrev pub accessors : String → List String
accessors f = workspace_name f ∷ provider_name f ∷ cluster_name f ∷ app_name f ∷ box_name f ∷ []

abbrev root_kinds : List String
root_kinds = "ws" ∷ "prv" ∷ "cls" ∷ "app" ∷ "box" ∷ []

-- Pairs whose kinds begin the way from the root.
lineage-prefix : (kind : Kind) → lineage kind ≡ take (length (lineage kind)) root_kinds
lineage-prefix workspace = refl
lineage-prefix provider = refl
lineage-prefix cluster = refl
lineage-prefix app = refl
lineage-prefix box = refl
lineage-prefix (other s) = refl

accessors_of :
    (f : String) (pairs : List (String × String))
    → segments f ≡ flatten pairs
    → kinds pairs ≡ take (length pairs) root_kinds
    → accessors f ≡ five_names (names pairs)
unfolding workspace_name provider_name cluster_name app_name box_name
accessors_of f [] segs line = rw segs (ground arith)
accessors_of f ((k, n) ∷ []) segs line = rw segs (ground (arith, eq_iff k "ws"))
accessors_of f ((k, n) ∷ (l, o) ∷ []) segs line =
    rw segs (ground (arith, eq_iff k "ws", eq_iff l "prv"))
accessors_of f ((k, n) ∷ (l, o) ∷ (m, p) ∷ []) segs line =
    rw segs (ground (arith, eq_iff k "ws", eq_iff l "prv", eq_iff m "cls"))
accessors_of f ((k, n) ∷ (l, o) ∷ (m, p) ∷ (q, r) ∷ []) segs line =
    rw segs (ground (arith, eq_iff k "ws", eq_iff l "prv", eq_iff m "cls", eq_iff q "app"))
accessors_of f ((k, n) ∷ (l, o) ∷ (m, p) ∷ (q, r) ∷ (s, t) ∷ []) segs line =
    rw segs (
      ground (arith, eq_iff k "ws", eq_iff l "prv", eq_iff m "cls", eq_iff q "app", eq_iff s "box"))
accessors_of f ((k, n) ∷ (l, o) ∷ (m, p) ∷ (q, r) ∷ (s, t) ∷ _ ∷ more) segs line = absurd (cc)

lineage-take :
    (kind : Kind) (pairs : List (String × String))
    → kinds pairs ≡ lineage kind
    → kinds pairs ≡ take (length pairs) root_kinds
lineage-take kind pairs line =
    line
    ∙ lineage-prefix kind
    ∙ ap (λ n. take n root_kinds) (sym (ap length line) ∙ length-kinds pairs)

module _ (d : LabelRules) where
  -- Of an ID that ValidateResourceID accepts, the five name accessors return the names in the
  -- ID's pairs in order, and the empty text beyond the ID's own kind.
  pub validate-accessors :
      (f : String) (kind : Kind) (name : String)
      → validate_resource_id d.is_label f kind name ≡ ok f
      → accessors f ≡ five_names (names (kind_segments f))
  validate-accessors f kind name h =
      let r = ((validate-eq-ok_iff d f f kind name).0 h).1 in
      let pairs : List (String × String) = r.parents ++ (r.own, name) ∷ [] in
      let plain = IsResource-Plain d r in
      let ne = snoc-ne-nil r.parents (r.own, name) in
      let segs : segments f ≡ flatten pairs =
        ap segments r.printed ∙ segments-render pairs ne plain in
      let own : kind_segments f ≡ pairs =
        ap kind_segments r.printed ∙ kind_segments-render pairs ne plain in
      accessors_of f pairs segs
        (lineage-take kind pairs (kinds-append r.parents ((r.own, name) ∷ []) ∙ r.line))
      ∙ ap (λ ps. five_names (names ps)) (sym own)
