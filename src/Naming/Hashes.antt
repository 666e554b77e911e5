-- ===== src/Naming/Hashes.antt =====
-- internal/naming/naming.go: short hashes of identifiers, and the names made of them.
use Prim.Native.Nat.{zero, suc}
use Prim.Native.String.{len, slice}
use mathlib.Core.Path.{subst}
use text.Mathlib.TextLemmas.{cons-append, nil-append}
use text.Mathlib.TextPositions.{len-append}
use kompox.Prelude.{
  ℕ, ◌+◌, ◌≤◌, ◌≡◌, inl, inr, refl, sym, ap, ◌∙◌, String, ltb, Bool-cases, if◌then◌else◌, append,
  arith, IsAscii, IsAscii-len-slice,
}

-- The SHA-256 digest of a text as a number in base 36 (crypto/sha256 and math/big): one-byte
-- digits, and what else they are is left open.
pub record Digest : Type 0 where
  pub base36 : String → String
  pub digits : (s : String) → IsAscii (base36 s)

-- `for len(h) < n { h = "0" + h }`: one round adds one byte, so `n` rounds are enough.
unfoldable pub pad : ℕ → ℕ → String → String
pad zero n h = h
pad (suc rounds) n h =
    let longer = pad rounds n (append "0" h) in if ltb (len h) n then longer else h

unfoldable pub short_hash : Digest → String → ℕ → String
short_hash d s n = let h = pad n n (d.base36 s) in if ltb n (len h) then slice h 0 n else h

pub record Hashes : Type 0 where
  pub workspace : String
  pub provider : String
  pub cluster : String
  pub app_id : String
  pub app_instance : String
  pub namespace : String

abbrev pub default_length : ℕ
default_length = 6

unfoldable pub volume_hash : Digest → String → String
volume_hash d handle = short_hash d handle default_length

-- fmt.Sprintf("%s:%s", s, t)
abbrev pub colon : String → String → String
colon s t = append s (append ":" t)

unfoldable pub new_hashes : Digest → String → String → String → String → Hashes
new_hashes d workspace provider cluster app =
    let hash = λ (s : String). short_hash d s default_length in
    let provider_hash = hash (colon workspace provider) in
    let app_id_hash = hash (colon workspace (colon provider app)) in
    record {
      workspace = hash workspace;
      provider = provider_hash;
      cluster = hash (colon workspace (colon provider cluster));
      app_id = app_id_hash;
      app_instance = hash (colon workspace (colon provider (colon cluster app)));
      namespace =
          append "k4x-" (append provider_hash (append "-" (append app (append "-" app_id_hash))));
    }

unfoldable pub volume_resource_name : Digest → Hashes → String → String → String
volume_resource_name d h volume_name handle = append "k4x-" (
    append h.provider (
      append "-"
        (append volume_name (append "-" (append h.app_id (append "-" (volume_hash d handle)))))))

zero-IsAscii : (h : String) → IsAscii h → IsAscii (append "0" h)
zero-IsAscii h a =
    subst IsAscii (sym (cons-append "0" "" h ∙ ap (String.◌∷◌ "0") (nil-append h))) (refl, a)

pad-IsAscii : (rounds n : ℕ) (h : String) → IsAscii h → IsAscii (pad rounds n h)
unfolding pad
pad-IsAscii zero n h a = a
pad-IsAscii (suc rounds) n h a = elim (Bool-cases (ltb (len h) n)) [
  | inl short ↦ rw (short, pad) (pad-IsAscii rounds n (append "0" h) (zero-IsAscii h a))
  | inr long ↦ rw (long, pad) a
]

-- Enough rounds reach the length.
pad-len : (rounds n : ℕ) (h : String) → n ≤ len h + rounds → n ≤ len (pad rounds n h)
unfolding pad
pad-len zero n h le = omega arith
pad-len (suc rounds) n h le = elim (Bool-cases (ltb (len h) n)) [
  | inl short ↦ rw (short, pad) (pad-len rounds n (append "0" h) (omega (arith, len-append "0" h)))
  | inr long ↦ rw (long, pad) (ground arith)
]

-- A short hash has exactly the length that is asked for, whatever the digest.
pub short_hash-len : (d : Digest) (s : String) (n : ℕ) → len (short_hash d s n) ≡ n
unfolding short_hash
short_hash-len d s n =
    let long = pad-len n n (d.base36 s) (omega arith) in
    elim (Bool-cases (ltb n (len (pad n n (d.base36 s))))) [
      | inl cut ↦
          rw (cut, short_hash)
            (IsAscii-len-slice (pad n n (d.base36 s)) n (pad-IsAscii n n (d.base36 s) (d.digits s))
              long)
      | inr fits ↦ rw (fits, short_hash) (ground arith)
    ]
