-- ===== src/Crd/Validator/Spec.antt =====
-- What makes a set of documents well formed, whatever their order.
use kompox.Prelude.{
  ◌≡◌, ◌⊎◌, refl, String, Bool, true, false, ◌||◌, none, List, [], ◌∷◌, ◌++◌, All, if◌then◌else◌,
  arith, ◌==◌,
}
use kompox.Crd.Types.{Kind, workspace, other, Document}
use kompox.Crd.Fqn.{parent_fqn}
use kompox.Crd.Validator.{box_check, segments_differ}

unfoldable pub has_fqn : String → List Document → Bool
has_fqn f [] = false
has_fqn f (d ∷ docs) = if d.fqn == f then true else has_fqn f docs

-- No two documents have one ID.
abbrev pub Distinct : List Document → Type 0
Distinct [] = Unit
Distinct (d ∷ docs) = (has_fqn d.fqn docs ≡ false) × Distinct docs

-- A kind that the code knows.
abbrev pub IsKnown : Kind → Type 0
IsKnown (other s) = ⊥
IsKnown _ = Unit

-- The ID has as many pairs as the kind wants, the parent is among `docs`, and a Box is valid.
pub record IsGood (is_label : String → Bool) (docs : List Document) (d : Document) : Type 0 where
  pub counted : segments_differ d ≡ false
  pub parented : (d.kind ≡ workspace) ⊎ (has_fqn (parent_fqn d.fqn) docs ≡ true)
  pub boxed : box_check is_label d.kind d.object ≡ none

pub record WellFormed (is_label : String → Bool) (docs : List Document) : Type 0 where
  pub distinct : Distinct docs
  pub good : All (IsGood is_label docs) docs

pub has_fqn-append :
    (f : String) (xs ys : List Document) → has_fqn f (xs ++ ys) ≡ (has_fqn f xs || has_fqn f ys)
unfolding has_fqn
has_fqn-append f [] ys = refl
has_fqn-append f (d ∷ xs) ys = ground (arith, has_fqn-append f xs ys)
