-- ===== src/Redaction.antt =====
-- packages/hermeskill-sdk/src/hermeskill/capability/redaction.py: the view of a call's arguments that an
-- operator sees. The compiled patterns of the standard library's `re` are a parameter.
pub mod Hidden
use hermeskill.Common.{
  ℕ, suc, ◌+◌, String, Bool, true, false, List, [], ◌∷◌, map, any, ltb, codes, codes_eq, strip,
  to_lower, if◌then◌else◌,
}
use hermeskill.Json.{
  Key, Leaf, Json, Items, Fields, leaf, str, list, tuple, dict, end, item, done, field,
}

-- `SENSITIVE_KEYS`
abbrev pub sensitive_keys : List String
sensitive_keys =
    "password" ∷ "passwd" ∷ "token" ∷ "api_key" ∷ "apikey" ∷ "authorization" ∷ "secret" ∷ "cookie"
    ∷ "private_key" ∷ "privatekey" ∷ "access_token" ∷ "refresh_token" ∷ "session_token"
    ∷ "client_secret" ∷ []

-- `_INLINE_SECRET_PATTERNS`, by what each finds.
pub data Pattern : Type 0 where
  model_key stripe github_pat github_oauth slack aws gcp bearer private_key : Pattern

abbrev pub patterns : List Pattern
patterns =
    Pattern.model_key ∷ Pattern.stripe ∷ Pattern.github_pat ∷ Pattern.github_oauth ∷ Pattern.slack
    ∷ Pattern.aws ∷ Pattern.gcp ∷ Pattern.bearer ∷ Pattern.private_key ∷ []

-- `REDACTED`
abbrev pub redacted : String
redacted = "***REDACTED***"

abbrev pub max_depth : ℕ
max_depth = 32

-- `_is_sensitive_key`
unfoldable pub is_sensitive_key : Key → Bool
is_sensitive_key (Key.opaque n) = false
is_sensitive_key (Key.name k) =
    any (λ s. codes_eq (codes s) (map to_lower (strip (codes k)))) sensitive_keys

-- `sub p s` is `pat.sub(REDACTED, s)` for the pattern p.
module _ (sub : Pattern → String → String) where
  scrub_all : List Pattern → String → String
  scrub_all [] s = s
  scrub_all (p ∷ ps) s = scrub_all ps (sub p s)

  -- `_scrub_string`
  unfoldable pub scrub_string : String → String
  unfolding scrub_all
  scrub_string = scrub_all patterns

  unfoldable mutual
    -- `redact_arguments(value, _depth=d)`
    pub redact_at : ℕ → Json → Json
    redact_at d (leaf l) = if ltb max_depth d then str redacted else leaf l
    redact_at d (str s) = if ltb max_depth d then str redacted else str (scrub_string s)
    redact_at d (list xs) =
        let items = redact_items d xs in if ltb max_depth d then str redacted else list items
    redact_at d (tuple xs) =
        let items = redact_items d xs in if ltb max_depth d then str redacted else tuple items
    redact_at d (dict fs) =
        let fields = redact_fields d fs in if ltb max_depth d then str redacted else dict fields

    redact_items : ℕ → Items → Items
    redact_items d end = end
    redact_items d (item x xs) = item (redact_at (d + 1) x) (redact_items d xs)

    redact_fields : ℕ → Fields → Fields
    redact_fields d done = done
    redact_fields d (field k v fs) =
        let shown = redact_at (d + 1) v in
        field k (if is_sensitive_key k then str redacted else shown) (redact_fields d fs)

  unfoldable pub redact_arguments : Json → Json
  unfolding redact_at
  redact_arguments = redact_at 0
