-- ===== src/UseCases/Updating.antt =====
-- What the input of an Update asks for, and what the use cases make of it.
use mathlib.Core.Path.{subst}
use kompox.Prelude.{
  ℕ, ◌≡◌, ◌≢◌, ◌⊎◌, refl, sym, ap, ◌∙◌, inl, inr, String, Bool, true, false, ◌||◌, ◌==◌, eq_iff,
  ne_of_eq-false, Option, none, some, Bool-cases, Result, ok, arith,
}
use kompox.Domain.Model.{Error, Workspace, Provider, App}
use kompox.Store.{Entity, Repository, workspace_entity, provider_entity, app_entity, get}
use kompox.UseCases.{
  Package, is_change, changed_to, is_move, moved_to, update, workspace_package, provider_package,
  app_package,
}
use kompox.UseCases.Editing.{
  Edits, edit-Edits, workspace-IsEditing, provider-IsEditing, app-IsEditing, changed_to-same,
  moved_to-same,
}

-- What an optional text asks for: `new` is the text given, or `old` where none is. An empty text
-- asks for nothing where IsWanted is used, and is one to take where IsTaken is.
abbrev pub IsWanted : Option String → String → String → Type 0
IsWanted n old new =
    ((s : String) × (n ≡ some s) × (s ≢ "") × (new ≡ s))
    ⊎ (((n ≡ none) ⊎ (n ≡ some "")) × (new ≡ old))

abbrev pub IsTaken : Option String → String → String → Type 0
IsTaken n old new = ((s : String) × (n ≡ some s) × (new ≡ s)) ⊎ ((n ≡ none) × (new ≡ old))

changed_to-IsWanted : (n : Option String) (old : String) → IsWanted n old (changed_to n old)
changed_to-IsWanted none old = inr (inl refl, refl)
changed_to-IsWanted (some s) old = elim (Bool-cases (s == "")) [
  | inl empty ↦ inr (inr (ap some ((eq_iff s "").0 empty)), rw (empty, changed_to) refl)
  | inr given ↦ inl (
    s,
    refl,
    ne_of_eq-false s "" given,
    elim (Bool-cases (old == s)) [
      | inl same ↦ rw (given, same, changed_to) ((eq_iff old s).0 same)
      | inr new ↦ rw (given, new, changed_to) refl
    ],
  )
]

moved_to-IsTaken : (n : Option String) (old : String) → IsTaken n old (moved_to n old)
moved_to-IsTaken none old = inr (refl, refl)
moved_to-IsTaken (some s) old = inl (
  s,
  refl,
  elim (Bool-cases (old == s)) [
    | inl same ↦ rw (same, moved_to) ((eq_iff old s).0 same)
    | inr new ↦ rw (new, moved_to) refl
  ],
)

is_change-differs :
    (n : Option String) (old : String) → is_change n old ≡ true → changed_to n old ≢ old
is_change-differs none old h same = absurd (cc h)
is_change-differs (some s) old h same = absurd (ground (arith, eq_iff old s, eq_iff s old))

is_move-differs : (n : Option String) (old : String) → is_move n old ≡ true → moved_to n old ≢ old
is_move-differs none old h same = absurd (cc h)
is_move-differs (some s) old h same = absurd (ground (arith, eq_iff old s, eq_iff s old))

-- The result of an Update: the entity with what the input asks for (`Wants`, of the stored entity and
-- the result), stored with the present time if that differs from what was stored (`IsNew`), and
-- otherwise the stored one in a repository left as it was.
abbrev pub Updated :
    {E : Type 0}
    → ⦃e : Entity E⦄ → (E → E → Type 0)
    → (E → E → Type 0)
    → (E → ℕ)
    → ℕ
    → String
    → E
    → Repository E
    → Result Error E × Repository E
    → Type 0
Updated {E} Wants IsNew time_of now id x r (result, r') =
    (y : E) × (result ≡ ok y)
    × (get id r' ≡ ok y)
    × ((j : String) → id ≢ j → get j r' ≡ get j r)
    × Wants x y
    × ((IsNew x y × (time_of y ≡ now)) ⊎ ((y ≡ x) × (r' ≡ r)))

abbrev pub WorkspaceWants : Option String → Workspace → Workspace → Type 0
WorkspaceWants name x y =
    IsWanted name x.name y.name × (y ≡ record x { name = y.name; updated_at = y.updated_at })

abbrev pub ProviderWants : Option String → Option String → Provider → Provider → Type 0
ProviderWants name driver x y =
    IsWanted name x.name y.name
    × IsWanted driver x.driver y.driver
    × (y ≡ record x { name = y.name; driver = y.driver; updated_at = y.updated_at })

abbrev pub AppWants : Option String → Option String → App → App → Type 0
AppWants name cluster_id x y =
    IsWanted name x.name y.name
    × IsTaken cluster_id x.cluster_id y.cluster_id
    × (y ≡ record x { name = y.name; cluster_id = y.cluster_id; updated_at = y.updated_at })

-- What Edits says of a package, by what the changes are.
Edits-Updated :
    {E C U : Type 0} ⦃e : Entity E⦄ (p : Package E C U) (Wants IsNew : E → E → Type 0)
    (time_of : E → ℕ) (now : ℕ) (id : String) (u : U) (x : E) (r : Repository E)
    (out : Result Error E × Repository E)
    → ((p.edit u x).1 ≡ true
        → Wants x (p.touch now (p.edit u x).0)
          × IsNew x (p.touch now (p.edit u x).0)
          × (time_of (p.touch now (p.edit u x).0) ≡ now))
    → ((p.edit u x).1 ≡ false → Wants x x)
    → Edits p now id u x r out
    → Updated Wants IsNew time_of now id x r out
Edits-Updated p Wants IsNew time_of now id u x r out changes keeps
      (y, result, there, others, inl (changed, is)) =
    let (wants, new, time) = changes changed in
    (
      y,
      result,
      there,
      others,
      subst (Wants x) (sym is) wants,
      inl (subst (IsNew x) (sym is) new, ap time_of is ∙ time),
    )
Edits-Updated p Wants IsNew time_of now id u x r out changes keeps
      (y, result, there, others, inr (kept, is, left)) =
    (y, result, there, others, subst (Wants x) (sym is) (keeps kept), inr (is, left))

unchanged-IsWanted :
    (n : Option String) (old : String) → is_change n old ≡ false → IsWanted n old old
unchanged-IsWanted n old h =
    subst (IsWanted n old) (changed_to-same n old h) (changed_to-IsWanted n old)

unmoved-IsTaken : (n : Option String) (old : String) → is_move n old ≡ false → IsTaken n old old
unmoved-IsTaken n old h = subst (IsTaken n old) (moved_to-same n old h) (moved_to-IsTaken n old)

-- One of two tests holds.
or-cases : (a b : Bool) → (a || b) ≡ true → (a ≡ true) ⊎ (b ≡ true)
or-cases true b h = inl refl
or-cases false b h = inr h

-- Update on a stored workspace, provider or app returns the entity, and Get then finds it. Its name
-- and driver are those that the input gives, unless it gives none or an empty text; the cluster ID
-- is the one that the input gives, empty or not. No other field differs but the time of update,
-- which is the present one if some field is a new one. If none is, the result is what was stored and
-- the repository is left as it was. No other entity changes.
pub updates-Updated :
    (now : ℕ) (id : String) (w : Workspace) (p : Provider) (a : App) (ws : Repository Workspace)
    (ps : Repository Provider) (as_stored : Repository App) (name driver cluster_id : Option String)
    → id ≢ ""
    → w.id ≡ id
    → p.id ≡ id
    → a.id ≡ id
    → get id ws ≡ ok w
    → get id ps ≡ ok p
    → get id as_stored ≡ ok a
    → Updated
        (WorkspaceWants name)
        (λ x y. y.name ≢ x.name)
        (λ y. y.updated_at)
        now
        id
        w
        ws
        (update workspace_package now (some (id, name)) ws)
      × Updated
          (ProviderWants name driver)
          (λ x y. (y.name ≢ x.name) ⊎ (y.driver ≢ x.driver))
          (λ y. y.updated_at)
          now
          id
          p
          ps
          (update provider_package now (some (id, (name, driver))) ps)
      × Updated
          (AppWants name cluster_id)
          (λ x y. (y.name ≢ x.name) ⊎ (y.cluster_id ≢ x.cluster_id))
          (λ y. y.updated_at)
          now
          id
          a
          as_stored
          (update app_package now (some (id, (name, cluster_id))) as_stored)
updates-Updated now id w p a ws ps as_stored name driver cluster_id named ow op oa gw gp ga = (
  Edits-Updated workspace_package (WorkspaceWants name) (λ x y. y.name ≢ x.name) (λ y. y.updated_at)
      now id name w ws _
      (λ h. ((changed_to-IsWanted name w.name, refl), is_change-differs name w.name h, refl))
      (λ h. (unchanged-IsWanted name w.name h, refl))
      (edit-Edits workspace_package now id name w ws workspace-IsEditing named ow gw),
  Edits-Updated provider_package (ProviderWants name driver)
      (λ x y. (y.name ≢ x.name) ⊎ (y.driver ≢ x.driver)) (λ y. y.updated_at) now id (name, driver) p
      ps _
      (λ h. (
        (changed_to-IsWanted name p.name, changed_to-IsWanted driver p.driver, refl),
        elim (or-cases (is_change name p.name) (is_change driver p.driver) h) [
          | inl one ↦ inl (is_change-differs name p.name one)
          | inr other ↦ inr (is_change-differs driver p.driver other)
        ],
        refl,
      ))
      (λ h. (
        unchanged-IsWanted name p.name (ground arith),
        unchanged-IsWanted driver p.driver (ground arith),
        refl,
      ))
      (edit-Edits provider_package now id (name, driver) p ps provider-IsEditing named op gp),
  Edits-Updated app_package (AppWants name cluster_id)
      (λ x y. (y.name ≢ x.name) ⊎ (y.cluster_id ≢ x.cluster_id)) (λ y. y.updated_at) now id
      (name, cluster_id) a as_stored _
      (λ h. (
        (changed_to-IsWanted name a.name, moved_to-IsTaken cluster_id a.cluster_id, refl),
        elim (or-cases (is_change name a.name) (is_move cluster_id a.cluster_id) h) [
          | inl one ↦ inl (is_change-differs name a.name one)
          | inr other ↦ inr (is_move-differs cluster_id a.cluster_id other)
        ],
        refl,
      ))
      (λ h. (
        unchanged-IsWanted name a.name (ground arith),
        unmoved-IsTaken cluster_id a.cluster_id (ground arith),
        refl,
      ))
      (edit-Edits app_package now id (name, cluster_id) a as_stored app-IsEditing named oa ga),
)
