-- ===== src/Watcher/Signature.antt =====
-- `_signature` of watcher.py. The standard library's `json.dumps`, `repr` and `sha1` are parameters.
use Prim.Native.String.{slice, ◌++◌ as text_append}
use mathlib.Core.Option
use hermeskill.Common.{String, Option, none, some}

-- What `json.dumps` does: a text, a TypeError or ValueError, or another error (RecursionError).
pub data Dumped : Type 0 where
  dumped : String → Dumped
  type_or_value_error other_error : Dumped

pub record Hashing (A : Type 0) : Type 0 where
  pub dumps : A → Dumped
  -- `none` if `repr` raises
  pub repr : A → Option String
  pub sha1_hex : String → String

module _ {A : Type 0} (h : Hashing A) where
  canonical : A → Dumped → Option String
  canonical params (Dumped.dumped s) = some s
  canonical params Dumped.type_or_value_error = h.repr params
  canonical params Dumped.other_error = none

  -- `none` stands for an exception.
  unfoldable pub signature : String → A → Option String
  unfolding canonical
  signature tool_name params = Option.map sign (canonical params (h.dumps params))
    where
      sign : String → String
      sign c = text_append tool_name (text_append "|" (slice (h.sha1_hex c) 0 16))
