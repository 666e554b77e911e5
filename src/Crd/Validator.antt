-- ===== src/Crd/Validator.antt =====
-- config/crd/ops/v1alpha1/validator.go: validation of a set of documents in topological order.
pub mod Spec
pub mod Sorting
pub mod Rounds
pub mod Parents
pub mod Accepts
pub mod Keeps
mod Tests
use Prim.Native.String.{compare}
use text.Mathlib.Text.{is_lt}
use kompox.Prelude.{
  ℕ, ◌+◌, String, Bool, true, false, not, ◌&&◌, Option, none, some, List, [], ◌∷◌, ◌++◌, ltb,
  nat_eq, if◌then◌else◌, length, ◌==◌,
}
use kompox.Crd.Types.{
  Kind, workspace, provider, cluster, app, box, other, kind_eq, Box, Object, of_box, Document,
}
use kompox.Crd.Fqn.{kind_segments, parent_fqn}

pub data Message : Type 0 where
  wrong_segments : Kind → ℕ → ℕ → Message
  duplicate : ℕ → Message
  no_parent : String → Message
  box_label box_reserved box_component box_standalone_ingress box_command box_args box_ingress :
      Message

pub record ValidationError : Type 0 where
  pub fqn : String
  pub kind : Kind
  pub message : Message
  pub path : String
  pub index : ℕ

pub record ValidationResult : Type 0 where
  pub valid_documents : List Document
  pub errors : List ValidationError

unfoldable pub has_errors : ValidationResult → Bool
has_errors r = ltb 0 (length r.errors)

unfoldable pub kind_order : Kind → ℕ
kind_order workspace = 1
kind_order provider = 2
kind_order cluster = 3
kind_order app = 4
kind_order box = 5
kind_order (other s) = 999

-- The order that sort.Slice is given: by kind, then by ID.
unfoldable pub less : Document → Document → Bool
unfolding kind_order
less a b =
    if not (nat_eq (kind_order a.kind) (kind_order b.kind))
    then ltb (kind_order a.kind) (kind_order b.kind)
    else is_lt (compare a.fqn b.fqn)

unfoldable pub insert_document : Document → List Document → List Document
insert_document d [] = d ∷ []
insert_document d (e ∷ docs) =
    let rest = insert_document d docs in if less e d then e ∷ rest else d ∷ e ∷ docs

-- sort.Slice: insertion sort, which is how it sorts up to twelve documents. On documents that the
-- order tells apart every sort gives this list.
unfoldable pub sort_by_topology : List Document → List Document
sort_by_topology [] = []
sort_by_topology (d ∷ docs) = insert_document d (sort_by_topology docs)

unfoldable pub is_empty {ℓ} : {A : Type ℓ} → List A → Bool
is_empty [] = true
is_empty (x ∷ xs) = false

-- The error message, or none for the empty text.
unfoldable pub validate_box : (String → Bool) → Box → Option Message
unfolding is_empty
validate_box is_label b =
    if not (is_label b.meta.name)
    then some box_label
    else if b.meta.name == "app"
    then some box_reserved
    else if not (b.spec.component == "") && not (b.spec.component == b.meta.name)
    then some box_component
    else if not (b.spec.image == "")
    then (if b.spec.ingress then some box_standalone_ingress else none)
    else if not (is_empty b.spec.command)
    then some box_command
    else if not (is_empty b.spec.args)
    then some box_args
    else if b.spec.ingress
    then some box_ingress
    else none

-- A Go map from IDs to indices, the last entry first; `seen_at` is the lookup.
unfoldable pub seen_at : String → List (String × ℕ) → Option ℕ
seen_at f [] = none
seen_at f ((g, i) ∷ seen) = if g == f then some i else seen_at f seen

unfoldable pub contains : String → List String → Bool
contains f [] = false
contains f (g ∷ fqns) = if g == f then true else contains f fqns

-- The variables of the loop.
pub record Progress : Type 0 where
  pub seen : List (String × ℕ)
  pub valid_parents : List String
  pub valid : List Document
  pub errors : List ValidationError

unfoldable pub segments_differ : Document → Bool
unfolding kind_order
segments_differ d =
    not (nat_eq (kind_order d.kind) 999)
    && not (nat_eq (length (kind_segments d.fqn)) (kind_order d.kind))

abbrev pub box_check : (String → Bool) → Kind → Object → Option Message
box_check is_label box (of_box b) = validate_box is_label b
box_check is_label _ _ = none

-- The checks of one round in their order: the message of the first that fails.
unfoldable pub check_document : (String → Bool) → Progress → Document → Option Message
check_document is_label p d =
    if segments_differ d
    then some (wrong_segments d.kind (kind_order d.kind) (length (kind_segments d.fqn)))
    else elim (seen_at d.fqn p.seen) [
      | some i ↦ some (duplicate i)
      | none ↦
          if not (kind_eq d.kind workspace) && not (contains (parent_fqn d.fqn) p.valid_parents)
          then some (no_parent (parent_fqn d.fqn))
          else box_check is_label d.kind d.object
    ]

abbrev pub error_of : Document → Message → ValidationError
error_of d m = record { fqn = d.fqn; kind = d.kind; message = m; path = d.path; index = d.index }

-- An error and `continue`.
abbrev pub reject : Progress → Document → Message → Progress
reject p d m = record p { errors = p.errors ++ error_of d m ∷ [] }

-- The end of a round: the document is valid.
abbrev pub accept : Progress → ℕ → Document → Progress
accept p i d = record p {
  seen = (d.fqn, i) ∷ p.seen;
  valid_parents = d.fqn ∷ p.valid_parents;
  valid = p.valid ++ d ∷ [];
}

unfoldable pub round : (String → Bool) → Progress → ℕ → Document → Progress
round is_label p i d = elim (check_document is_label p d) [
  | some m ↦ reject p d m
  | none ↦ accept p i d
]

unfoldable pub rounds : (String → Bool) → Progress → ℕ → List Document → Progress
rounds is_label p i [] = p
rounds is_label p i (d ∷ docs) = rounds is_label (round is_label p i d) (i + 1) docs

abbrev pub start : Progress
start = record { seen = []; valid_parents = []; valid = []; errors = [] }

unfoldable pub validate : (String → Bool) → List Document → ValidationResult
validate is_label docs =
    let p = rounds is_label start 0 (sort_by_topology docs) in
    record { valid_documents = p.valid; errors = p.errors }
