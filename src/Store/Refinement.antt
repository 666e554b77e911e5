-- ===== src/Store/Refinement.antt =====
-- A repository implements a function from IDs to entities, along any sequence of calls.
use mathlib.Core.Path.{fun_ext}
use kompox.Prelude.{
  ℕ, ◌+◌, ◌≡◌, refl, ap, ◌∙◌, inl, inr, String, Bool-cases, Option, none, some, Option-cases, List,
  [], ◌∷◌, ◌==◌, if◌then◌else◌, lookup, insert, remove, lookup-insert, lookup-remove, Result, ok,
  err,
}
use kompox.Domain.Model.{Error}
use kompox.Store.Laws.{create_fresh, create_given}
use kompox.Store.{Entity, Repository, format_id, next_id, create, get, update, delete}

-- The calls of a repository's methods.
pub data Call (E : Type 0) : Type 0 where
  create_call : ℕ → E → Call E
  get_call : String → Call E
  update_call : E → Call E
  delete_call : String → Call E

pub data Answer (E : Type 0) : Type 0 where
  created : E → Answer E
  got : Result Error E → Answer E
  written : Result Error (Unit {0}) → Answer E

-- What a repository is to its callers: a function from IDs, and how many IDs it has made up.
pub record View (E : Type 0) : Type 0 where
  pub entity_at : String → Option E
  pub issued : ℕ

abbrev pub set : {E : Type 0} → String → Option E → (String → Option E) → String → Option E
set id v f j = if id == j then v else f j

module _ {E : Type 0} ⦃e : Entity E⦄ where
  abbrev pub call : Call E → Repository E → Answer E × Repository E
  call (create_call now x) r = let (y, s) = create now x r in (created y, s)
  call (get_call id) r = (got (get id r), r)
  call (update_call x) r = let (a, s) = update x r in (written a, s)
  call (delete_call id) r = let (a, s) = delete id r in (written a, s)

  -- The answers to a sequence of calls.
  abbrev pub calls : List (Call E) → Repository E → List (Answer E)
  calls [] r = []
  calls (c ∷ cs) r = let (a, s) = call c r in a ∷ calls cs s

  abbrev found_or_not : Option E → Result Error E
  found_or_not none = err e.not_found
  found_or_not (some x) = ok x

  -- The specification: what each call answers and does to the function.
  abbrev pub specified : Call E → View E → Answer E × View E
  specified (create_call now x) v =
      if e.id_of x == ""
      then (let id = format_id e.prefix now (v.issued + 1) in
          let y = e.with_id id x in
          (created y, record { entity_at = set id (some y) v.entity_at; issued = v.issued + 1 }))
      else (created x, record v { entity_at = set (e.id_of x) (some x) v.entity_at })
  specified (get_call id) v = (got (found_or_not (v.entity_at id)), v)
  specified (update_call x) v = elim (v.entity_at (e.id_of x)) [
    | none ↦ (written (err e.not_found), v)
    | some old ↦ (
      written (ok tt),
      record v { entity_at = set (e.id_of x) (some (e.stored old x)) v.entity_at },
    )
  ]
  specified (delete_call id) v = elim (v.entity_at id) [
    | none ↦ (written (err e.not_found), v)
    | some x ↦ (written (ok tt), record v { entity_at = set id none v.entity_at })
  ]

  abbrev pub specified_all : List (Call E) → View E → List (Answer E)
  specified_all [] v = []
  specified_all (c ∷ cs) v = let (a, w) = specified c v in a ∷ specified_all cs w

  abbrev pub view : Repository E → View E
  view r = record { entity_at = λ j. lookup j r.items; issued = r.seq }

  view-insert :
      (id : String) (x : E) (r : Repository E) (n : ℕ)
      → view (record { items = insert id x r.items; seq = n })
        ≡ record { entity_at = set id (some x) (view r).entity_at; issued = n }
  view-insert id x r n =
      ap {A = String → Option E} (λ f. record { entity_at = f; issued = n })
        (fun_ext (λ j. lookup-insert id j x r.items))

  view-remove :
      (id : String) (r : Repository E)
      → view (record r { items = remove id r.items })
        ≡ record (view r) { entity_at = set id none (view r).entity_at }
  view-remove id r =
      ap {A = String → Option E} (λ f. record { entity_at = f; issued = r.seq })
        (fun_ext (λ j. lookup-remove id j r.items))

  -- One call does what is specified.
  call-specified :
      (c : Call E) (r : Repository E)
      → (let (a, s) = call c r in (a, view s)) ≡ specified c (view r)
  unfolding create next_id get update delete
  call-specified (create_call now x) r = elim (Bool-cases (e.id_of x == "")) [
    | inl fresh ↦
        let id = format_id e.prefix now (r.seq + 1) in
        rw (create_fresh now x r fresh, fresh, next_id)
          (ap {A = View E} (λ v. (created (e.with_id id x), v))
            (ap (λ i. view (record { items = insert i (e.with_id id x) r.items; seq = r.seq + 1 }))
                (e.id-with_id id x)
              ∙ view-insert id (e.with_id id x) r (r.seq + 1)))
    | inr given ↦
        rw (create_given now x r given, given)
          (ap {A = View E} (λ v. (created x, v)) (view-insert (e.id_of x) x r r.seq))
  ]
  call-specified (get_call id) r = refl
  call-specified (update_call x) r = elim (Option-cases (lookup (e.id_of x) r.items)) [
    | inl missing ↦ rw (missing, specified, update, delete) refl
    | inr (old, there) ↦
        rw (there, specified, update)
          (ap {A = View E} (λ v. (written (ok tt), v))
            (view-insert (e.id_of x) (e.stored old x) r r.seq))
  ]
  call-specified (delete_call id) r = elim (Option-cases (lookup id r.items)) [
    | inl missing ↦ rw (missing, specified, update, delete) refl
    | inr (x, there) ↦
        rw (there, specified, delete)
          (ap {A = View E} (λ v. (written (ok tt), v)) (view-remove id r))
  ]

  -- Whatever sequence of Create, Get, Update and Delete is called on a repository, it answers as
  -- the specification does on the function from IDs that the repository stands for: no answer
  -- depends on the order of the entries or on anything else that the function forgets.
  pub calls-specified_all :
      (cs : List (Call E)) (r : Repository E) → calls cs r ≡ specified_all cs (view r)
  calls-specified_all [] r = refl
  calls-specified_all (c ∷ cs) r =
      let (a, s) = call c r in
      let step = call-specified c r in
      ap (λ answers. a ∷ answers) (calls-specified_all cs s)
      ∙ ap {A = Answer E × View E} (λ o. o.0 ∷ specified_all cs o.1) step
