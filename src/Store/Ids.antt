-- ===== src/Store/Ids.antt =====
-- The IDs that nextID gives out, along any sequence of the repositories' operations.
use kompox.Prelude.{
  ok_inj, ◌+◌, ◌≢◌, ℕ, ◌≤◌, ◌≡◌, ◌⊎◌, refl, sym, ap, ◌∙◌, inl, inr, String, lookup, ok, err, arith,
}
use kompox.Domain.Model.{Workspace}
use kompox.Store.{Entity, workspace_entity, Repository, new_repository, format_id, get}
use kompox.Store.Steps.{
  format_id_inj, Steps, done, next, Fate, kept, given, made, replaced, gone, Given, Step-Fate,
  Step-seq,
}

module _ {E : Type 0} ⦃e : Entity E⦄ where
  abbrev IsIssued : String → Repository E → Type 0
  IsIssued j r = (now : ℕ) × ((n : ℕ) × (j ≡ format_id e.prefix now n) × (n ≤ r.seq))

  -- Every stored entity stands under its own ID, which a caller gave, or the counter.
  abbrev pub IsSound : (String → Type 0) → Repository E → Type 0
  IsSound G r = (j : String) (x : E) → get j r ≡ ok x → (e.id_of x ≡ j) × (G j ⊎ IsIssued j r)

  IsIssued-later :
      {G H : Type 0} (j : String) (r s : Repository E)
      → r.seq ≤ s.seq
      → G ⊎ IsIssued j r
      → (G ⊎ H) ⊎ IsIssued j s
  IsIssued-later j r s le (inl g) = inl (inl g)
  IsIssued-later j r s le (inr (now, (n, is, bound))) = inr (now, (n, is, omega arith))

  Fate-IsSound :
      {G : String → Type 0} {H : Type 0} {r s : Repository E} (j : String) (x : E)
      → Fate H j r s
      → r.seq ≤ s.seq
      → IsSound G r
      → get j s ≡ ok x
      → (e.id_of x ≡ j) × ((G j ⊎ H) ⊎ IsIssued j s)
  Fate-IsSound {r = r} {s = s} j x (kept same) le sound h =
      let (own, from) = sound j x (sym same ∙ h) in (own, IsIssued-later j r s le from)
  Fate-IsSound j x (given y g own there) le sound h =
      (ap e.id_of (ok_inj (sym h ∙ there)) ∙ own, inl (inr g))
  Fate-IsSound {s = s} j x (made now y grown issued own there) le sound h =
      (ap e.id_of (ok_inj (sym h ∙ there)) ∙ own, inr (now, (s.seq, issued, omega arith)))
  Fate-IsSound {r = r} {s = s} j x (replaced old y own there here) le sound h =
      let (_, from) = sound j old there in
      (ap e.id_of (ok_inj (sym h ∙ here)) ∙ e.id-stored old y ∙ own, IsIssued-later j r s le from)
  Fate-IsSound j x (gone h') le sound h = absurd (cc (sym h' ∙ h))

  empty-get : (j : String) (x : E) → get j new_repository ≡ ok x → ⊥
  unfolding get lookup
  empty-get j x h = cc h

  -- In every state that the operations reach from the empty repository, each stored entity has
  -- the ID that it is stored under. Either a caller gave that ID to one of the Create calls, or it
  -- came from the counter, at a value that the counter has not passed.
  pub Steps-IsSound :
      {s : Repository E} (steps : Steps new_repository s) → IsSound (λ j. Given j steps) s
  Steps-IsSound steps = go _ _ steps refl
    where
      go :
          (r s : Repository E) (steps : Steps r s)
          → r ≡ new_repository
          → IsSound (λ j. Given j steps) s
      go r s (done _) empty j x h = absurd (empty-get j x (ap (λ t. get j t) (sym empty) ∙ h))
      go r t (next {s = s} steps step) empty j x h =
          Fate-IsSound {G = λ k. Given k steps} j x (Step-Fate step j) (Step-seq step)
            (go r s steps empty) h

  -- The counter does not come to an ID: it has passed it, or never makes it.
  abbrev pub IsSpent : String → Repository E → Type 0
  IsSpent j r = IsIssued j r ⊎ ((now n : ℕ) → j ≢ format_id e.prefix now n)

  IsSpent-made :
      (j : String) (r s : Repository E) (now : ℕ)
      → IsSpent j r
      → s.seq ≡ r.seq + 1
      → j ≢ format_id e.prefix now s.seq
  IsSpent-made j r s later (inl (now, (n, issued, le))) grown again =
      omega (arith, grown, format_id_inj e.prefix now n later s.seq (sym issued ∙ again))
  IsSpent-made j r s later (inr never) grown again = never later s.seq again

  IsSpent-later : (j : String) (r s : Repository E) → r.seq ≤ s.seq → IsSpent j r → IsSpent j s
  IsSpent-later j r s le (inl (now, (n, issued, bound))) = inl (now, (n, issued, omega arith))
  IsSpent-later j r s le (inr never) = inr never

  -- An ID that is not made again: its entity is the same one, with what Update keeps, or is gone.
  abbrev Follows : (E → ℕ) → String → ℕ → Repository E → Type 0
  Follows field j v s = (get j s ≡ err e.not_found) ⊎ ((x : E) × (get j s ≡ ok x) × (field x ≡ v))

  Fate-Follows :
      (field : E → ℕ)
      → ((old x : E) → field (e.stored old x) ≡ field old)
      → {H : Type 0} {r s : Repository E} {v : ℕ} (j : String) → IsSpent j r
      → (H → ⊥)
      → Fate H j r s
      → Follows field j v r
      → Follows field j v s
  Fate-Follows field keeps j spent free (kept same) (inl missing) = inl (same ∙ missing)
  Fate-Follows field keeps j spent free (kept same) (inr (x, there, is)) = inr (x, same ∙ there, is)
  Fate-Follows field keeps j spent free (given y g own there) before = absurd (free g)
  Fate-Follows field keeps {r = r} {s = s} j spent free (made later y grown again own there)
        before =
      absurd (IsSpent-made j r s later spent grown again)
  Fate-Follows field keeps j spent free (replaced old x own there here) (inl missing) =
      absurd (cc (sym missing ∙ there))
  Fate-Follows field keeps j spent free (replaced old x own there here) (inr (y, was, is)) =
      inr (_, here, keeps old x ∙ ap field (ok_inj (sym there ∙ was)) ∙ is)
  Fate-Follows field keeps j spent free (gone missing) before = inl missing

  pub Steps-field :
      (field : E → ℕ)
      → ((old x : E) → field (e.stored old x) ≡ field old)
      → {r s : Repository E} {x y : E} (j : String) → IsSpent j r
      → (steps : Steps r s) → (Given j steps → ⊥)
      → get j r ≡ ok x
      → get j s ≡ ok y
      → field y ≡ field x
  Steps-field field keeps {x = x} {y = y} j spent steps free at_r at_s =
      elim (go _ _ steps free spent (inr (x, at_r, refl))).1 [
        | inl missing ↦ absurd (cc (sym missing ∙ at_s))
        | inr (z, there, is) ↦ ap field (ok_inj (sym at_s ∙ there)) ∙ is
      ]
    where
      go :
          (r s : Repository E) (steps : Steps r s)
          → (Given j steps → ⊥)
          → IsSpent j r
          → Follows field j (field x) r
          → IsSpent j s × Follows field j (field x) s
      go r s (done _) free spent start = (spent, start)
      go r t (next {s = s} steps step) free spent start =
          let (spent', so_far) = go r s steps (λ g. free (inl g)) spent start in
          (
            IsSpent-later j s t (Step-seq step) spent',
            Fate-Follows field keeps j spent' (λ g. free (inr g)) (Step-Fate step j) so_far,
          )

-- A workspace keeps its creation time through any operations but a Create to which its ID is
-- given: stored before and after them under an ID that the counter has passed, or that has not the
-- counter's form, it has the same creation time.
pub workspace-created_at :
    {r s : Repository Workspace} {w v : Workspace} (id : String)
    → IsSpent id r
    → (steps : Steps r s) → (Given id steps → ⊥)
    → get id r ≡ ok w
    → get id s ≡ ok v
    → v.created_at ≡ w.created_at
workspace-created_at = Steps-field (λ w. w.created_at) (λ old x. refl)
