-- ===== src/Labels.antt =====
-- The check of names that the program takes from k8s.io/apimachinery (IsDNS1123Label), as a value
-- with what its documentation promises: a label is a non-empty text of lower-case letters, digits
-- and "-" of at most 63 characters, so it has no slash.
pub mod Sample
use Prim.Native.String.{len}
use kompox.Prelude.{ℕ, ◌≤◌, ◌≡◌, ◌≢◌, Bool, true, String, NoSlash}

pub record LabelRules : Type 0 where
  pub is_label : String → Bool
  pub no_slash : (s : String) → is_label s ≡ true → NoSlash s
  pub non_empty : (s : String) → is_label s ≡ true → s ≢ ""
  pub short_enough : (s : String) → is_label s ≡ true → len s ≤ 63
