-- ===== src/Store/Laws.antt =====
-- A repository as a map from IDs to entities: what each method does to every Get.
use mathlib.Core.Path.{subst}
use kompox.Prelude.{
  ℕ, ◌≡◌, ◌≢◌, ◌⊎◌, refl, sym, ap, ◌∙◌, inl, inr, String, true, false, Option-cases, Bool-cases,
  ◌==◌, eq_iff, eq-false_of_ne, lookup, lookup-insert, lookup-remove, lookup-insert_other,
  lookup-insert_self, ok, err, if◌then◌else◌, arith,
}
use kompox.Store.{Entity, Repository, create, next_id, put, get, update, delete}

module _ {E : Type 0} ⦃e : Entity E⦄ where
  get_of_items :
      (j : String) (r s : Repository E) → lookup j r.items ≡ lookup j s.items → get j r ≡ get j s
  unfolding get
  get_of_items j r s h = rw (h, get)

  get-put_self : (x : E) (r : Repository E) → get (e.id_of x) (put x r) ≡ ok x
  unfolding get
  get-put_self x r = rw (lookup-insert_self (e.id_of x) x r.items, get)

  get-put_other :
      (x : E) (r s : Repository E) (j : String)
      → r.items ≡ s.items
      → e.id_of x ≢ j
      → get j (put x r) ≡ get j s
  get-put_other x r s j same ne =
      get_of_items j (put x r) s
        (lookup-insert_other (e.id_of x) j x r.items (eq-false_of_ne _ _ ne) ∙ ap (lookup j) same)

  same_items : (now : ℕ) (r : Repository E) → (next_id now r).1.items ≡ r.items
  unfolding next_id
  same_items now r = refl

  pub create_fresh :
      (now : ℕ) (x : E) (r : Repository E)
      → (e.id_of x == "") ≡ true
      → create now x r
        ≡ (e.with_id (next_id now r).0 x, put (e.with_id (next_id now r).0 x) (next_id now r).1)
  unfolding create
  create_fresh now x r h = rw (h, create)

  pub create_given :
      (now : ℕ) (x : E) (r : Repository E)
      → (e.id_of x == "") ≡ false
      → create now x r ≡ (x, put x r)
  unfolding create
  create_given now x r h = rw (h, create)

  -- What Create promises of the entity and the state that it returns.
  abbrev pub Stores : E → Repository E → E × Repository E → Type 0
  Stores x r (y, s) =
      (get (e.id_of y) s ≡ ok y)
      × ((j : String) → e.id_of y ≢ j → get j s ≡ get j r)
      × (e.id_of x ≢ "" → y ≡ x)
      × (e.with_id (e.id_of x) y ≡ x)

  -- Create stores the entity that it returns under that entity's ID, and changes no other ID. An
  -- entity that has an ID is returned as it is given, and one without differs in its ID alone: with
  -- the ID put back, it is the one that was given.
  pub get-create : (now : ℕ) (x : E) (r : Repository E) → Stores x r (create now x r)
  get-create now x r = elim (Bool-cases (e.id_of x == "")) [
    | inl fresh ↦ subst (Stores x r) (sym (create_fresh now x r fresh)) (
      get-put_self _ _,
      λ j ne.
          get-put_other (e.with_id (next_id now r).0 x) (next_id now r).1 r j (same_items now r) ne,
      λ ne. absurd (ne ((eq_iff (e.id_of x) "").0 fresh)),
      e.with_id-with_id (e.id_of x) (next_id now r).0 x ∙ e.with_id-own x,
    )
    | inr given ↦
        subst (Stores x r) (sym (create_given now x r given))
          (get-put_self x r, λ j ne. get-put_other x r r j refl ne, λ ne. refl, e.with_id-own x)
  ]

  -- A Create under an ID that the caller gives.
  pub get-create_given :
      (now : ℕ) (x : E) (r : Repository E)
      → e.id_of x ≢ ""
      → (get (e.id_of x) (create now x r).1 ≡ ok x)
        × ((j : String) → e.id_of x ≢ j → get j (create now x r).1 ≡ get j r)
  get-create_given now x r given =
      let (there, others, same, _) = get-create now x r in
      let own = ap e.id_of (same given) in
      (
        ap (λ i. get i (create now x r).1) (sym own) ∙ there ∙ ap ok (same given),
        λ j differ. others j (λ h. differ (sym own ∙ h)),
      )

  -- Update succeeds exactly where the ID is stored; it then replaces that entity by what the
  -- repository writes for it, and otherwise changes nothing.
  pub get-update :
      (x : E) (r : Repository E)
      → ((old : E) × (get (e.id_of x) r ≡ ok old)
          × ((update x r).0 ≡ ok tt)
          × ((j : String)
              → get j (update x r).1 ≡ (if e.id_of x == j then ok (e.stored old x) else get j r)))
        ⊎ ((get (e.id_of x) r ≡ err e.not_found) × (update x r ≡ (err e.not_found, r)))
  unfolding update get
  get-update x r = elim (Option-cases (lookup (e.id_of x) r.items)) [
    | inl missing ↦ inr (rw (missing, get), rw (missing, update))
    | inr (old, there) ↦ inl (
      old,
      rw (there, get),
      rw (there, update),
      λ j.
          rw (there, update, lookup-insert (e.id_of x) j (e.stored old x) r.items, get) ground
            arith,
    )
  ]

  -- Delete succeeds exactly where the ID is stored; it then takes that ID away, and otherwise
  -- changes nothing.
  pub get-delete :
      (id : String) (r : Repository E)
      → ((old : E) × (get id r ≡ ok old)
          × ((delete id r).0 ≡ ok tt)
          × ((j : String) → get j (delete id r).1 ≡ (if id == j then err e.not_found else get j r)))
        ⊎ ((get id r ≡ err e.not_found) × (delete id r ≡ (err e.not_found, r)))
  unfolding delete get
  get-delete id r = elim (Option-cases (lookup id r.items)) [
    | inl missing ↦ inr (rw (missing, get), rw (missing, delete))
    | inr (old, there) ↦ inl (
      old,
      rw (there, get),
      rw (there, delete),
      λ j. rw (there, delete, lookup-remove id j r.items, get) ground arith,
    )
  ]
