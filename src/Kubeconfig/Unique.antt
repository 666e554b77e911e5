-- ===== src/Kubeconfig/Unique.antt =====
-- The names that uniqueName finds.
use text.Mathlib.TextLemmas.{append_cancel_left}
use kompox.Prelude.{
  ℕ, zero, suc, ◌+◌, ◌≤◌, ◌<◌, ◌≡◌, ◌≢◌, ◌⊎◌, refl, sym, ap, ◌∙◌, inl, inr, String, Bool-cases,
  none, some, Option-cases, [], ◌∷◌, length, nat_eq, decimal_inj, Map, lookup, remove,
  lookup-remove, ◌==◌, eq-false_of_ne, arith,
}
use kompox.Kubeconfig.{candidate, unique_from, unique_name}

candidate_inj : (name : String) (i j : ℕ) → candidate name i ≡ candidate name j → i ≡ j
candidate_inj name i j h =
    decimal_inj i j (append_cancel_left "-" _ _ (append_cancel_left name _ _ h))

module _ {V : Type 0} where
  length-remove_le : (key : String) (m : Map V) → length (remove key m) ≤ length m
  unfolding remove
  length-remove_le key [] = omega arith
  length-remove_le key ((n, v) ∷ m) = ground (arith, length-remove_le key m)

  length-remove_lt :
      (key : String) (v : V) (m : Map V) → lookup key m ≡ some v → length (remove key m) < length m
  unfolding remove lookup
  length-remove_lt key v [] h = absurd (cc h)
  length-remove_lt key v ((n, w) ∷ m) h = elim (Bool-cases (n == key)) [
    | inl same ↦ rw same (omega (arith, length-remove_le key m))
    | inr differ ↦
        let rest = length-remove_lt key v m (rw (differ, lookup) at h) in
        rw differ (omega (arith, rest))
  ]

  -- Among more candidates than entries, one is free.
  free_candidate :
      (fuel i : ℕ) (name : String) (m : Map V)
      → length m < fuel
      → (j : ℕ) × (i ≤ j) × (j < i + fuel) × (lookup (candidate name j) m ≡ none)
  free_candidate zero i name m h = absurd (omega arith)
  free_candidate (suc fuel) i name m h = elim (Option-cases (lookup (candidate name i) m)) [
    | inl free ↦ (i, omega arith, omega arith, free)
    | inr (v, taken) ↦
        let shorter = length-remove_lt (candidate name i) v m taken in
        let (j, from, below, free) =
          free_candidate fuel (i + 1) name (remove (candidate name i) m) (omega (arith, shorter)) in
        let differ =
          eq-false_of_ne (candidate name i) (candidate name j)
            (λ e. absurd (omega (arith, candidate_inj name i j e, from))) in
        (
          j,
          omega (arith, from),
          omega (arith, below),
          sym (rw differ at (lookup-remove (candidate name i) (candidate name j) m)) ∙ free,
        )
  ]

  -- The first free candidate: those before it are taken.
  pub record IsFirst (i : ℕ) (name r : String) (m : Map V) : Type 0 where
    pub place : ℕ
    pub from : i ≤ place
    pub named : r ≡ candidate name place
    pub free : lookup r m ≡ none
    pub first : (k : ℕ) → i ≤ k → k < place → lookup (candidate name k) m ≢ none

  unique_from-IsFirst :
      (fuel i : ℕ) (name : String) (m : Map V) (j : ℕ)
      → i ≤ j
      → j < i + fuel
      → lookup (candidate name j) m ≡ none
      → (r : String) × (unique_from fuel i name m ≡ some r) × IsFirst i name r m
  unfolding unique_from
  unique_from-IsFirst zero i name m j le lt free = absurd (omega arith)
  unique_from-IsFirst (suc fuel) i name m j le lt free =
      elim (Option-cases (lookup (candidate name i) m)) [
        | inl here ↦ (
          candidate name i,
          rw (here, unique_from) refl,
          record {
            place = i;
            from = omega arith;
            named = refl;
            free = here;
            first = λ k above below. absurd (omega (arith, above, below));
          },
        )
        | inr (v, taken) ↦
            let ne : i ≢ j = λ e. absurd (cc (e, taken, free)) in
            let (r, found, f) =
              unique_from-IsFirst fuel (i + 1) name m j (omega (arith, ne)) (omega arith) free in
            (
              r,
              rw (taken, unique_from) found,
              record {
                place = f.place;
                from = omega (arith, f.from);
                named = f.named;
                free = f.free;
                first = λ k above below missing. elim (Bool-cases (nat_eq k i)) [
                  | inl same ↦
                      let k≡i : k ≡ i = ground arith in
                      cc (sym missing ∙ ap (λ n. lookup (candidate name n) m) k≡i ∙ taken)
                  | inr other ↦ f.first k (ground arith) below missing
                ];
              },
            )
      ]

  -- uniqueName ends, with a name that the map has no entry for: the given one if it is free, and
  -- otherwise the first free one of name-1, name-2 and so on.
  pub unique_name-IsFirst :
      (name : String) (m : Map V)
      → (r : String) × (unique_name name m ≡ some r)
        × (lookup r m ≡ none)
        × (((lookup name m ≡ none) × (r ≡ name)) ⊎ ((lookup name m ≢ none) × IsFirst 1 name r m))
  unfolding unique_name
  unique_name-IsFirst name m = elim (Option-cases (lookup name m)) [
    | inl free ↦ (name, rw (free, unique_name) refl, free, inl (free, refl))
    | inr (v, taken) ↦
        let (j, from, below, free) = free_candidate (length m + 1) 1 name m (omega arith) in
        let (r, found, f) = unique_from-IsFirst (length m + 1) 1 name m j from below free in
        (
          r,
          rw (taken, unique_name) found,
          f.free,
          inr (λ missing. absurd (cc (sym missing ∙ taken)), f),
        )
  ]
