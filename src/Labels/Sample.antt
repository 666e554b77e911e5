-- ===== src/Labels/Sample.antt =====
-- A check of names that keeps the promises: letters and digits only.
use Prim.Native.String.{len}
use kompox.Prelude.{
  ◌≤◌, ◌≡◌, ◌≢◌, Bool, true, not, ◌&&◌, ◌||◌, String, Char, code, leb, NoSlash, is_slash, arith,
  ◌==◌, eq_iff,
}
use kompox.Labels.{LabelRules}

unfoldable pub alphanumeric : Char → Bool
alphanumeric c = leb b'a' (code c) && leb (code c) b'z' || leb b'0' (code c) && leb (code c) b'9'

unfoldable pub all_alphanumeric : String → Bool
unfolding alphanumeric
all_alphanumeric String.[] = true
all_alphanumeric (String.◌∷◌ c s) = alphanumeric c && all_alphanumeric s

unfoldable pub sample_label : String → Bool
unfolding all_alphanumeric
sample_label s = all_alphanumeric s && not (s == "") && leb (len s) 63

all_alphanumeric-NoSlash : (s : String) → all_alphanumeric s ≡ true → NoSlash s
unfolding all_alphanumeric is_slash
all_alphanumeric-NoSlash String.[] h = tt
all_alphanumeric-NoSlash (String.◌∷◌ c s) h =
    (ground arith, all_alphanumeric-NoSlash s (ground arith))

pub sample-NoSlash : (s : String) → sample_label s ≡ true → NoSlash s
unfolding sample_label
sample-NoSlash s h = all_alphanumeric-NoSlash s (ground arith)

pub sample_non_empty : (s : String) → sample_label s ≡ true → s ≢ ""
unfolding sample_label
sample_non_empty s h = ground (arith, eq_iff s "")

pub sample_short : (s : String) → sample_label s ≡ true → len s ≤ 63
unfolding sample_label
sample_short s h = ground arith

abbrev pub sample : LabelRules
sample = record {
  is_label = sample_label;
  no_slash = sample-NoSlash;
  non_empty = sample_non_empty;
  short_enough = sample_short;
}
