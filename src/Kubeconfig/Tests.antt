-- ===== src/Kubeconfig/Tests.antt =====
-- Two configurations merged, and instances of the theorems.
use kompox.Prelude.{
  ℕ, ◌≡◌, ◌≢◌, ◌⊎◌, refl, String, Bool, false, none, some, [], ◌∷◌, lookup, insert, remove, ok,
  Succeeds, decimal,
}
use kompox.Kubeconfig.{
  Config, Change, unique_from, unique_name, resolve, merge_into_existing, current_name, rename_all,
  load_and_normalize,
}
use kompox.Kubeconfig.Unique.{IsFirst, unique_name-IsFirst}
use kompox.Kubeconfig.Merging.{IsComplete, IsMerged, merge-IsMerged}
use kompox.Kubeconfig.Normalizing.{IsNamed, normalize-merge}

all_of : Unit {0}
unfolding unique_from unique_name resolve merge_into_existing current_name rename_all
    load_and_normalize lookup insert remove decimal
all_of = tt

abbrev one : Config ℕ ℕ
one = record {
  current_context = "dev";
  contexts = ("dev", record { cluster = "dev"; auth_info = "me"; namespace = "" }) ∷ [];
  clusters = ("dev", 1) ∷ [];
  auth_infos = ("me", 2) ∷ [];
}

-- One more context of the name, and one of the first candidate.
abbrev two : Config ℕ ℕ
two = record {
  current_context = "dev";
  contexts =
      ("dev", record { cluster = "dev"; auth_info = "you"; namespace = "" })
      ∷ ("dev-1", record { cluster = "dev"; auth_info = "you"; namespace = "" })
      ∷ [];
  clusters = ("dev", 3) ∷ [];
  auth_infos = ("you", 4) ∷ [];
}

unique_name_test : unique_name "dev" two.contexts ≡ some "dev-2"
unfolding all_of
unique_name_test = refl

complete : IsComplete one
unfolding all_of
complete = record {
  ctx = record { cluster = "dev"; auth_info = "me"; namespace = "" };
  cluster = 1;
  user = 2;
  current = cc;
  has_ctx = refl;
  has_cluster = refl;
  has_user = refl;
}

unique_name-IsFirst_example :
    (r : String) × (unique_name "dev" two.contexts ≡ some r)
    × (lookup r two.contexts ≡ none)
    × (((lookup "dev" two.contexts ≡ none) × (r ≡ "dev"))
        ⊎ ((lookup "dev" two.contexts ≢ none) × IsFirst 1 "dev" r two.contexts))
unique_name-IsFirst_example = unique_name-IsFirst "dev" two.contexts

merge-IsMerged_example :
    (out : Config ℕ ℕ) × (name : String) × (change : Change) × (merge_into_existing one two false
        false
      ≡ ok (out, name, change))
    × IsMerged one two false false complete out name change
merge-IsMerged_example = merge-IsMerged one two false false complete

abbrev as_prod : Config ℕ ℕ
as_prod = record {
  current_context = "prod";
  contexts = ("prod", record { cluster = "prod"; auth_info = "prod"; namespace = "web" }) ∷ [];
  clusters = ("prod", 1) ∷ [];
  auth_infos = ("prod", 2) ∷ [];
}

normalized : load_and_normalize (λ c. ok c) (λ c. ok c) (ok one) "prod" "web" ≡ ok as_prod
unfolding all_of
normalized = refl

normalize-merge_example :
    IsNamed "prod" "web" as_prod
    × ((existing : Config ℕ ℕ) (force set_current : Bool)
        → Succeeds (merge_into_existing as_prod existing force set_current))
normalize-merge_example =
    normalize-merge (λ c. ok c) (λ c. ok c) (ok one) "prod" "web" as_prod (cc) normalized
