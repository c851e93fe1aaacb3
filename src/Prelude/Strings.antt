-- ===== src/Prelude/Strings.antt =====
-- Texts put together, as by `fmt.Sprintf`.
use Prim.Native.String.{String, ◌++◌ as str_append}
use mathlib.Core.List.{List, [], ◌∷◌}
use text.Mathlib.Text.{◌==◌}
use acm_caas_poc.Prelude.Tests.{if◌then◌else◌}

abbrev pub concat : List String → String
concat [] = ""
concat (s ∷ []) = s
concat (s ∷ ss) = str_append s (concat ss)

-- `if s == "" { s = fallback }`
abbrev pub or_else : String → String → String
or_else s fallback = if s == "" then fallback else s
