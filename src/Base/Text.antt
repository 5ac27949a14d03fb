-- ===== src/Base/Text.antt =====
-- C strings: `strcmp(s, t) == 0` is the equality of texts.
pub use Prim.Native.String.{String}
pub use text.Mathlib.Text.{◌==◌ as str_eq}
pub use text.Mathlib.TextEquality.{eq_iff as str_eq_iff}
pub use text.Mathlib.Text.{starts_with}
pub use Prim.Native.String.{slice, len}
