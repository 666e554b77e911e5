-- ===== src/Store/Tests.antt =====
-- The repositories at work, and instances of the theorems.
use kompox.Prelude.{
  inl, inr, arith, ◌≡◌, ◌⊎◌, refl, String, List, [], ◌∷◌, ◌==◌, if◌then◌else◌, ok, err, lookup,
  insert, remove, decimal,
}
use kompox.Domain.Model.{Workspace, Box, workspace_not_found}
use kompox.Store.{
  workspace_entity, box_entity, Repository, new_repository, format_id, next_id, create, get, list,
  update, delete, list_by_app_id,
}
use kompox.Store.Laws.{Stores, get-create, get-update, get-delete}
use kompox.Store.Steps.{created, updated, Steps, done, next, Given}
use kompox.Store.Refinement.{
  Call, create_call, get_call, update_call, delete_call, calls, specified_all, view,
  calls-specified_all,
}
use kompox.Store.Ids.{IsSpent, IsSound, Steps-IsSound, workspace-created_at}

abbrev first : Workspace
first = record { id = ""; name = "one"; created_at = 5; updated_at = 5 }

abbrev one_item : Repository Workspace
one_item = (create 7 first new_repository).1

abbrev renamed : Workspace
renamed = record { id = "ws-7-1"; name = "uno"; created_at = 9; updated_at = 9 }

abbrev a_box : String → String → Box
a_box name app = record {
  id = "";
  name = name;
  app_id = app;
  component = "";
  image = "i";
  command = [];
  args = [];
  network_policy = [];
  created_at = 1;
  updated_at = 1;
}

all_of : Unit {0}
unfolding create next_id format_id get list update delete list_by_app_id lookup insert remove
    decimal
all_of = tt

create_test : (create 7 first new_repository).0.id ≡ "ws-7-1"
unfolding all_of
create_test = refl

update_test : get "ws-7-1" (update renamed one_item).1 ≡ ok (record renamed { created_at = 5 })
unfolding all_of
update_test = refl

delete_tests :
    (get "ws-7-1" (delete "ws-7-1" one_item).1 ≡ err workspace_not_found)
    × ((delete "ws-7-2" one_item).0 ≡ err workspace_not_found)
unfolding all_of
delete_tests = (refl, refl)

boxes_test :
    list_by_app_id "a1" (create 2 (a_box "y" "a2") (create 1 (a_box "x" "a1") new_repository).1).1
    ≡ record (a_box "x" "a1") { id = "box-1-1" } ∷ []
unfolding all_of
boxes_test = refl

get-create_example : Stores first new_repository (create 7 first new_repository)
get-create_example = get-create 7 first new_repository

update_outcome_test :
    ((old : Workspace) × (get "ws-7-1" one_item ≡ ok old)
      × ((update renamed one_item).0 ≡ ok tt)
      × ((j : String)
          → get j (update renamed one_item).1 ≡ (
              if "ws-7-1" == j
              then ok (record renamed { created_at = old.created_at })
              else get j one_item)))
    ⊎ ((get "ws-7-1" one_item ≡ err workspace_not_found)
        × (update renamed one_item ≡ (err workspace_not_found, one_item)))
update_outcome_test = get-update renamed one_item

delete_outcome_test :
    ((old : Workspace) × (get "ws-7-1" one_item ≡ ok old)
      × ((delete "ws-7-1" one_item).0 ≡ ok tt)
      × ((j : String)
          → get j (delete "ws-7-1" one_item).1
            ≡ (if "ws-7-1" == j then err workspace_not_found else get j one_item)))
    ⊎ ((get "ws-7-1" one_item ≡ err workspace_not_found)
        × (delete "ws-7-1" one_item ≡ (err workspace_not_found, one_item)))
delete_outcome_test = get-delete "ws-7-1" one_item

abbrev to_one : Steps new_repository one_item
to_one = next (done new_repository) (created 7 first new_repository)

Steps-IsSound_example : IsSound (λ j. Given j to_one) one_item
Steps-IsSound_example = Steps-IsSound to_one

at_start : get "ws-7-1" one_item ≡ ok (record first { id = "ws-7-1" })
unfolding all_of
at_start = refl

spent : IsSpent "ws-7-1" one_item
unfolding all_of
spent = inl (7, (1, refl, omega arith))

workspace-created_at_example :
    (record renamed { created_at = 5 }).created_at ≡ (record first { id = "ws-7-1" }).created_at
workspace-created_at_example =
    workspace-created_at "ws-7-1" spent (next (done one_item) (updated renamed one_item))
      (λ g. elim g [ inl h ↦ h | inr h ↦ h ]) at_start update_test

-- A Create with the ID of a stored workspace replaces it, its creation time included.
abbrev taken : Workspace
taken = record { id = "ws-7-1"; name = "two"; created_at = 8; updated_at = 8 }

taken_test : get "ws-7-1" (create 9 taken one_item).1 ≡ ok taken
unfolding all_of
taken_test = refl

abbrev some_calls : List (Call Workspace)
some_calls = create_call 7 first ∷ get_call "ws-7-1" ∷ update_call renamed ∷ delete_call "x" ∷ []

calls-specified_all_example :
    calls some_calls new_repository ≡ specified_all some_calls (view new_repository)
calls-specified_all_example = calls-specified_all some_calls new_repository
