-- ===== src/Crd/Fqn/Chains.antt =====
-- The chain of parents that validateParentChain wants of each kind, as the list of short kinds.
use kompox.Prelude.{
  ℕ, suc, ◌+◌, ◌-◌, ◌≡◌, ◌≢◌, refl, sym, ap, ◌∙◌, inl, inr, true, some, String, List, [], ◌∷◌, ◌++◌,
  arith, leb, if◌then◌else◌, Bool-cases, Option-cases, length, get_or, snoc-ne-nil, snoc_inj,
  get_or-snoc, length-snoc, get_or-append, ok, ◌==◌, eq_iff, eq_refl, length-append,
}
use kompox.Crd.Types.{Kind, workspace, provider, cluster, app, box, other, kind_eq}
use kompox.Crd.Fqn.{
  kind_segments, kind_full_to_short, expected_chain, check_chain, last_pair_kind, last_name_of,
  validate_parent_chain,
}
use kompox.Crd.Fqn.Paths.{flatten}

pub kind_eq_sound : (a b : Kind) → kind_eq a b ≡ true → a ≡ b
unfolding kind_eq
kind_eq_sound workspace workspace h = refl
kind_eq_sound provider provider h = refl
kind_eq_sound cluster cluster h = refl
kind_eq_sound app app h = refl
kind_eq_sound box box h = refl
kind_eq_sound (other s) (other t) h = ap other ((eq_iff s t).0 h)
kind_eq_sound _ _ h = cc

pub kind_eq_refl : (a : Kind) → kind_eq a a ≡ true
unfolding kind_eq
kind_eq_refl (other s) = eq_refl s
kind_eq_refl workspace = refl
kind_eq_refl _ = refl

-- The short kinds on the way from the root to a resource of a kind.
abbrev pub lineage : Kind → List String
lineage workspace = "ws" ∷ []
lineage provider = "ws" ∷ "prv" ∷ []
lineage cluster = "ws" ∷ "prv" ∷ "cls" ∷ []
lineage app = "ws" ∷ "prv" ∷ "cls" ∷ "app" ∷ []
lineage box = "ws" ∷ "prv" ∷ "cls" ∷ "app" ∷ "box" ∷ []
lineage (other s) = []

abbrev pub kinds : List (String × String) → List String
kinds [] = []
kinds ((k, n) ∷ pairs) = k ∷ kinds pairs

pub chain-lineage :
    (kind : Kind) (chain : List String) (own : String)
    → expected_chain kind ≡ some chain
    → kind_full_to_short kind ≡ some own
    → lineage kind ≡ chain ++ own ∷ []
unfolding expected_chain kind_full_to_short
chain-lineage workspace chain own h k = cc
chain-lineage provider chain own h k = ground arith
chain-lineage cluster chain own h k = ground arith
chain-lineage app chain own h k = ground arith
chain-lineage box chain own h k = ground arith
chain-lineage (other s) chain own h k = cc

pub last_pair_kind-snoc :
    (pairs : List (String × String)) (p : String × String) → last_pair_kind (pairs ++ p ∷ []) ≡ p.0
last_pair_kind-snoc pairs p =
    ap (λ i. (get_or (pairs ++ p ∷ []) i ("", "")).0) (omega (arith, length-snoc pairs p))
    ∙ ap (λ (q : String × String). q.0) (get_or-snoc pairs p ("", ""))

pub flatten-append :
    (pairs more : List (String × String)) → flatten (pairs ++ more) ≡ flatten pairs ++ flatten more
flatten-append [] more = refl
flatten-append ((k, n) ∷ pairs) more = ap (λ r. k ∷ n ∷ r) (flatten-append pairs more)

long_get :
    (segs : List String) (k n : String) (l : ℕ)
    → l ≡ length segs + 2
    → (if leb 2 l then get_or (segs ++ k ∷ n ∷ []) (l - 1) "" else "") ≡ n
long_get segs k n l e =
    let i : l - 1 ≡ length segs + 1 = omega arith in
    rw (i, get_or-append segs (k ∷ n ∷ []) 1 "") (ground arith)

pub last_name-snoc :
    (pairs : List (String × String)) (k n : String)
    → last_name_of (flatten (pairs ++ (k, n) ∷ [])) ≡ n
last_name-snoc pairs k n =
    let segs : List String = flatten pairs in
    let long : length (segs ++ k ∷ n ∷ []) ≡ length segs + 2 =
      length-append segs (k ∷ n ∷ []) ∙ omega arith in
    rw (flatten-append pairs ((k, n) ∷ [])) (long_get segs k n (length (segs ++ k ∷ n ∷ [])) long)

pub length-kinds : (pairs : List (String × String)) → length (kinds pairs) ≡ length pairs
length-kinds [] = refl
length-kinds ((k, n) ∷ pairs) = ap suc (length-kinds pairs)

check_chain_sound :
    (i : ℕ) (chain : List String) (pairs more : List (String × String))
    → length pairs ≡ length chain
    → check_chain i chain (pairs ++ more) ≡ ok tt
    → kinds pairs ≡ chain
unfolding check_chain
check_chain_sound i [] [] more e h = refl
check_chain_sound i [] (p ∷ pairs) more e h = absurd (omega arith)
check_chain_sound i (s ∷ chain) [] more e h = absurd (omega arith)
check_chain_sound i (s ∷ chain) ((k, n) ∷ pairs) more e h = elim (Bool-cases (k == s)) [
  | inl same ↦ cc (
    (eq_iff k s).0 same,
    check_chain_sound (i + 1) chain pairs more (omega arith) (rw (same, check_chain) at h),
  )
  | inr differ ↦ absurd (cc (rw (differ, check_chain) at h))
]

check_chain_complete :
    (i : ℕ) (pairs more : List (String × String))
    → check_chain i (kinds pairs) (pairs ++ more) ≡ ok tt
unfolding check_chain
check_chain_complete i [] more = refl
check_chain_complete i ((k, n) ∷ pairs) more =
    rw (eq_refl k) (check_chain_complete (i + 1) pairs more)

validate_parent_chain_inv :
    (f : String) (kind : Kind)
    → validate_parent_chain f kind ≡ ok tt
    → (chain : List String) × (own : String) × (expected_chain kind ≡ some chain)
      × (kind_full_to_short kind ≡ some own)
      × (length (kind_segments f) ≡ length chain + 1)
      × (check_chain 0 chain (kind_segments f) ≡ ok tt)
      × (last_pair_kind (kind_segments f) ≡ own)
unfolding validate_parent_chain
validate_parent_chain_inv f kind h = elim (Option-cases (expected_chain kind)) [
  | inl no_chain ↦ absurd (ground arith)
  | inr (chain, e) ↦ elim (Option-cases (kind_full_to_short kind)) [
    | inl no_short ↦ absurd (ground arith)
    | inr (own, s) ↦ (
      chain,
      own,
      e,
      s,
      ground arith,
      ground arith,
      ground (arith, eq_iff (last_pair_kind (kind_segments f)) own),
    )
  ]
]

pub validate_parent_chain_sound :
    (f : String) (kind : Kind) (init : List (String × String)) (own name : String)
    → kind_segments f ≡ init ++ (own, name) ∷ []
    → validate_parent_chain f kind ≡ ok tt
    → kinds init ++ own ∷ [] ≡ lineage kind
validate_parent_chain_sound f kind init own name e h =
    let (chain, short, ch, sh, len, checked, last) = validate_parent_chain_inv f kind h in
    let len' : length init ≡ length chain =
      omega (arith, length-snoc init (own, name), ap (length {A = String × String}) e) in
    let same = check_chain_sound 0 chain init ((own, name) ∷ []) len' (rw e at checked) in
    let own_eq : own ≡ short =
      sym (last_pair_kind-snoc init (own, name)) ∙ sym (ap last_pair_kind e) ∙ last in
    ap (λ c. c ++ own ∷ []) same
    ∙ ap (λ s. chain ++ s ∷ []) own_eq
    ∙ sym (chain-lineage kind chain short ch sh)

pub lineage_parts :
    (kind : Kind)
    → lineage kind ≢ []
    → (chain : List String) × (own : String) × (expected_chain kind ≡ some chain)
      × (kind_full_to_short kind ≡ some own)
unfolding expected_chain kind_full_to_short
lineage_parts workspace h = (_, _, refl, refl)
lineage_parts provider h = (_, _, refl, refl)
lineage_parts cluster h = (_, _, refl, refl)
lineage_parts app h = (_, _, refl, refl)
lineage_parts box h = (_, _, refl, refl)
lineage_parts (other s) h = absurd (h refl)

run_chain :
    (f : String) (kind : Kind) (chain : List String) (own : String)
    → expected_chain kind ≡ some chain
    → kind_full_to_short kind ≡ some own
    → length (kind_segments f) ≡ length chain + 1
    → check_chain 0 chain (kind_segments f) ≡ ok tt
    → last_pair_kind (kind_segments f) ≡ own
    → validate_parent_chain f kind ≡ ok tt
unfolding validate_parent_chain
run_chain f kind chain own e s len checked last =
    rw (e, s) (ground (arith, eq_iff (last_pair_kind (kind_segments f)) own))

pub validate_parent_chain_complete :
    (f : String) (kind : Kind) (init : List (String × String)) (own name : String)
    → kind_segments f ≡ init ++ (own, name) ∷ []
    → kinds init ++ own ∷ [] ≡ lineage kind
    → validate_parent_chain f kind ≡ ok tt
validate_parent_chain_complete f kind init own name e h =
    let (chain, short, ch, sh) =
      lineage_parts kind (λ empty. snoc-ne-nil (kinds init) own (h ∙ empty)) in
    let (same, own_eq) =
      snoc_inj (kinds init) chain own short (h ∙ chain-lineage kind chain short ch sh) in
    run_chain f kind chain short ch sh
      (rw (e, ← same) (omega (arith, length-snoc init (own, name), length-kinds init)))
      (rw (e, ← same) (check_chain_complete 0 init ((own, name) ∷ [])))
      (rw (e, last_pair_kind-snoc init (own, name)) own_eq)
