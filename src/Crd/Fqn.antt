-- ===== src/Crd/Fqn.antt =====
-- config/crd/ops/v1alpha1/fqn.go: resource IDs such as /ws/w1/prv/p1/cls/c1, which name a resource
-- by the kinds and names of its parents and its own.
pub mod Paths
pub mod Parse
pub mod Chains
pub mod Validate
pub mod Parents
pub mod Build
pub mod Names
mod Tests
use kompox.Prelude.{
  ℕ, zero, suc, ◌+◌, ◌-◌, ◌%◌, String, Bool, true, false, not, ◌&&◌, ◌||◌, Option, none, some, List,
  [], ◌∷◌, leb, nat_eq, if◌then◌else◌, length, get_or, take, append, split_slash, join_slash,
  trim_slash, has_slash, lookup, Result, ok, err, ◌>>=◌, ◌>>◌, guard, found, ◌==◌,
}
use kompox.Crd.Types.{Kind, workspace, provider, cluster, app, box, other, kind_eq, StringMap}

pub data Error : Type 0 where
  missing_annotation no_leading_slash odd_segments no_pair bad_structure workspace_with_parent
        parent_required :
      Error
  unknown_short invalid_name : String → Error
  kind_mismatch : Kind → Kind → Error
  name_mismatch : String → String → Error
  unknown_kind : Kind → Error
  wrong_count : Kind → ℕ → ℕ → Error
  wrong_parent : String → ℕ → String → Error
  wrong_own_kind : String → Kind → String → Error
  constructed_invalid : Error → Error

abbrev pub annotation_id : String
annotation_id = "ops.kompox.dev/id"

unfoldable pub segments : String → List String
segments f = if f == "" || f == "/" then [] else split_slash (trim_slash f)

-- The rounds of `for i := 0; i < len(segs); i += 2`.
unfoldable pub pair_up : List String → List (String × String)
pair_up [] = []
pair_up (k ∷ []) = []
pair_up (k ∷ n ∷ segs) = (k, n) ∷ pair_up segs

abbrev pub is_odd : List String → Bool
is_odd segs = nat_eq (length segs % 2) 1

unfoldable pub kind_segments : String → List (String × String)
kind_segments f = if is_odd (segments f) then [] else pair_up (segments f)

abbrev last_kind_of : List String → String
last_kind_of segs = if leb 2 (length segs) then get_or segs (length segs - 2) "" else ""

unfoldable pub last_kind : String → String
last_kind f = last_kind_of (segments f)

abbrev last_name_of : List String → String
last_name_of segs = if leb 2 (length segs) then get_or segs (length segs - 1) "" else ""

unfoldable pub last_name : String → String
last_name f = last_name_of (segments f)

-- `if len(segs) >= i+2 && segs[i] == kind { return segs[i+1] }; return ""`
abbrev name_at : ℕ → String → List String → String
name_at i kind segs =
    if leb (i + 2) (length segs) && get_or segs i "" == kind then get_or segs (i + 1) "" else ""

unfoldable pub workspace_name : String → String
workspace_name f = name_at 0 "ws" (segments f)

unfoldable pub provider_name : String → String
provider_name f = name_at 2 "prv" (segments f)

unfoldable pub cluster_name : String → String
cluster_name f = name_at 4 "cls" (segments f)

unfoldable pub app_name : String → String
app_name f = name_at 6 "app" (segments f)

unfoldable pub box_name : String → String
box_name f = name_at 8 "box" (segments f)

abbrev pub parent_of : List String → String
parent_of segs =
    if leb (length segs) 2 then "" else append "/" (join_slash (take (length segs - 2) segs))

unfoldable pub parent_fqn : String → String
parent_fqn f = parent_of (segments f)

unfoldable pub kind_short_to_full : String → Option Kind
kind_short_to_full s =
    if s == "ws"
    then some workspace
    else if s == "prv"
    then some provider
    else if s == "cls"
    then some cluster
    else if s == "app"
    then some app
    else if s == "box"
    then some box
    else none

unfoldable pub kind_full_to_short : Kind → Option String
kind_full_to_short workspace = some "ws"
kind_full_to_short provider = some "prv"
kind_full_to_short cluster = some "cls"
kind_full_to_short app = some "app"
kind_full_to_short box = some "box"
kind_full_to_short (other s) = none

unfoldable pub expected_chain : Kind → Option (List String)
expected_chain workspace = some []
expected_chain provider = some ("ws" ∷ [])
expected_chain cluster = some ("ws" ∷ "prv" ∷ [])
expected_chain app = some ("ws" ∷ "prv" ∷ "cls" ∷ [])
expected_chain box = some ("ws" ∷ "prv" ∷ "cls" ∷ "app" ∷ [])
expected_chain (other s) = none

-- The loop over the expected chain, against the pairs' kinds.
unfoldable pub check_chain : ℕ → List String → List (String × String) → Result Error (Unit {0})
check_chain i [] pairs = ok tt
check_chain i (e ∷ chain) [] = err (wrong_parent e i "")
check_chain i (e ∷ chain) ((k, n) ∷ pairs) = do
  guard (k == e) (wrong_parent e i k)
  check_chain (i + 1) chain pairs

abbrev last_pair_kind : List (String × String) → String
last_pair_kind pairs = (get_or pairs (length pairs - 1) ("", "")).0

unfoldable pub validate_parent_chain : String → Kind → Result Error (Unit {0})
validate_parent_chain fqn kind = do
  let pairs = kind_segments fqn
  guard (leb 1 (length pairs)) bad_structure
  chain ← found (expected_chain kind) (unknown_kind kind)
  guard (nat_eq (length pairs) (length chain + 1))
      (wrong_count kind (length chain + 1) (length pairs))
  check_chain 0 chain pairs
  own ← found (kind_full_to_short kind) (unknown_kind kind)
  guard (last_pair_kind pairs == own) (wrong_own_kind own kind (last_pair_kind pairs))

-- The text that BuildResourceID puts together, before it validates it.
abbrev pub construct : String → Kind → String → String → Result Error String
construct parent workspace short name =
    if parent == "" then ok (append "/ws/" name) else err workspace_with_parent
construct parent kind short name =
    if parent == ""
    then err parent_required
    else ok (append parent (append "/" (append short (append "/" name))))

abbrev wrap : Result Error String → String → Result Error String
wrap (ok _) fqn = ok fqn
wrap (err e) fqn = err (constructed_invalid e)

-- The check of names is the library function IsDNS1123Label: `is_label` says that it finds no error.
module _ (is_label : String → Bool) where
  -- The loop over the pairs; `full` is the kind that is kept from the last one.
  unfoldable pub check_pairs : List (String × String) → Kind → Result Error Kind
  check_pairs [] full = ok full
  check_pairs ((k, n) ∷ pairs) full = do
    f ← found (kind_short_to_full k) (unknown_short k)
    guard (is_label n) (invalid_name n)
    check_pairs pairs f

  unfoldable pub parse_resource_id : String → Result Error (String × Kind)
  parse_resource_id id = do
    guard (has_slash id) no_leading_slash
    let segs = segments id
    guard (not (is_odd segs)) odd_segments
    guard (leb 2 (length segs)) no_pair
    full ← check_pairs (pair_up segs) (other "")
    ok (id, full)

  unfoldable pub validate_resource_id : String → Kind → String → Result Error String
  validate_resource_id id expected_kind expected_name = do
    (fqn, kind) ← parse_resource_id id
    guard (kind_eq kind expected_kind) (kind_mismatch kind expected_kind)
    guard (last_name fqn == expected_name) (name_mismatch (last_name fqn) expected_name)
    validate_parent_chain fqn expected_kind
    ok fqn

  unfoldable pub build_resource_id : String → Kind → String → Result Error String
  build_resource_id parent kind name = do
    guard (is_label name) (invalid_name name)
    short ← found (kind_full_to_short kind) (unknown_kind kind)
    fqn ← construct parent kind short name
    wrap (validate_resource_id fqn kind name) fqn

  -- The ID that a document's annotations give, valid for its kind and name.
  unfoldable pub extract_resource_id : Kind → String → StringMap → Result Error String
  extract_resource_id kind name annotations = do
    id ← found (lookup annotation_id annotations) missing_annotation
    validate_resource_id id kind name
