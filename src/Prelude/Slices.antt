-- ===== src/Prelude/Slices.antt =====
-- How long Go's s[:n] is, on texts.
use Prim.Native.Nat.{ℕ, ◌+◌, ◌-◌, ◌≤◌, compare}
use Prim.Native.Char.{Char, len_utf8}
use Prim.Native.String.len
use Prim.Native.String.slice
use Prim.Native.String.{String, [], ◌∷◌, len, slice, fits}
use mathlib.Core.Path.{◌≡◌, ap}
use mathlib.Core.Logic.{inl, inr, ◌⊎◌}
use native.Mathlib.Omega.{arith}

fits-cases :
    (c : Char) (r : String) (k : ℕ)
    → ((len_utf8 c ≤ k) × (fits (compare (len_utf8 c) k) c r ≡ c ∷ r))
      ⊎ ((k + 1 ≤ len_utf8 c) × (fits (compare (len_utf8 c) k) c r ≡ []))
fits-cases c r k = ground arith

-- A cut text is at most as long as asked for (shorter if the cut would divide a character).
pub len-slice : (s : String) (k : ℕ) → len (slice s 0 k) ≤ k
len-slice [] k = omega (arith, ap len (slice.nil 0 k), len.nil)
len-slice (c ∷ s) k = elim (fits-cases c (slice s 0 (k - len_utf8 c)) k) [
  | inl (fit, is) ↦ omega (
    arith,
    ap len (slice.cons-zero c s k),
    ap len is,
    len.cons c (slice s 0 (k - len_utf8 c)),
    len-slice s (k - len_utf8 c),
  )
  | inr (wide, is) ↦ omega (arith, ap len (slice.cons-zero c s k), ap len is, len.nil)
]

-- Every character is one byte.
abbrev pub IsAscii : String → Type 0
IsAscii [] = Unit
IsAscii (c ∷ s) = (len_utf8 c ≡ 1) × IsAscii s

pub IsAscii-len-slice : (s : String) (k : ℕ) → IsAscii s → k ≤ len s → len (slice s 0 k) ≡ k
IsAscii-len-slice [] k a h = omega (arith, ap len (slice.nil 0 k), len.nil)
IsAscii-len-slice (c ∷ s) k (one, a) h = elim (fits-cases c (slice s 0 (k - len_utf8 c)) k) [
  | inl (fit, is) ↦ omega (
    arith,
    ap len (slice.cons-zero c s k),
    ap len is,
    len.cons c (slice s 0 (k - len_utf8 c)),
    IsAscii-len-slice s (k - len_utf8 c) a (omega (arith, len.cons c s)),
  )
  | inr (wide, is) ↦ omega (arith, ap len (slice.cons-zero c s k), ap len is, len.nil)
]
