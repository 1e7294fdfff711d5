-- ===== src/Crew/Text.antt =====
-- src/crewai_runtime/runtime.py: texts put together from parts.
use Prim.Native.String.{String, [] as empty, ◌++◌}
use text.Mathlib.Text.{◌==◌}
use mathlib.Core.Option.{Option, none, some}
use mathlib.Core.List.{List, [], ◌∷◌}
use delaxis.Prelude.{if◌then◌else◌}

-- `separator.join(parts)`
unfoldable pub join_text : String → List String → String
join_text separator [] = empty
join_text separator (part ∷ []) = part
join_text separator (part ∷ next ∷ parts) = part ++ separator ++ join_text separator (next ∷ parts)

unfoldable pub concat_text : List String → String
concat_text [] = empty
concat_text (part ∷ parts) = part ++ concat_text parts

-- `s or default`, for a text that may be missing.
unfoldable pub text_or : Option String → String → String
text_or none default = default
text_or (some s) default = if s == "" then default else s
