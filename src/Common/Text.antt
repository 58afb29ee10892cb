-- ===== src/Common/Text.antt =====
-- Equality of texts as an instance.
use Prim.Native.String.{String}
use text.Mathlib.Text.{◌==◌ as str_beq}
use text.Mathlib.TextEquality.{eq_iff}
use tower_main.Common.Tests.{Eq}

instance abbrev pub string_eq : Eq String
string_eq = record { decides = eq_iff; test = str_beq }
