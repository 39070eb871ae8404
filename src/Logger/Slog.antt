-- ===== src/Logger/Slog.antt =====
-- What internal/logger/logger.go uses of Go's log/slog. A handler is what it was made with, and what
-- is logged is the record with the handler that takes it; the formats themselves are left out.
use goqtt.Base.Int.{ℤ}
use goqtt.Base.{◌∷◌, leb, ◌++◌, map, if◌then◌else◌, [], List, ℕ, Bool, Bytes}

-- slog.LevelDebug, LevelInfo, LevelWarn and LevelError: -4, 0, 4 and 8.
pub data Level : Type 0 where
  debug_level info_level warn_level error_level : Level

-- The level's number, 4 added.
unfoldable pub severity : Level → ℕ
severity debug_level = 0
severity info_level = 4
severity warn_level = 8
severity error_level = 12

pub data Value : Type 0 where
  text : Bytes → Value
  number : ℤ → Value
  flag : Bool → Value

pub record Attr : Type 0 where
  pub key : Bytes
  pub value : Value

-- An io.Writer: the standard output, or another one.
pub data Writer : Type 0 where
  stdout : Writer
  writer : ℕ → Writer

pub data Format : Type 0 where
  json_format text_format : Format

pub record HandlerOptions : Type 0 where
  pub level : Level
  pub add_source : Bool

-- What WithAttrs and WithGroup add: attributes, or a group for all that is added later.
pub data Scope : Type 0 where
  attributes : List Attr → Scope
  group : Bytes → Scope

pub record Handler : Type 0 where
  pub format : Format
  pub output : Writer
  pub options : HandlerOptions
  pub scopes : List Scope

abbrev pub new_handler : Format → Writer → HandlerOptions → Handler
new_handler format output options = record {
  format = format;
  output = output;
  options = options;
  scopes = [];
}

-- As the documentation of slog.Handler says: without attributes, or without a name, the handler stays
-- as it is.
unfoldable pub handler_with_attrs : List Attr → Handler → Handler
handler_with_attrs [] h = h
handler_with_attrs (a ∷ attrs) h = record h { scopes = h.scopes ++ (attributes (a ∷ attrs) ∷ []) }

unfoldable pub handler_with_group : Bytes → Handler → Handler
handler_with_group [] h = h
handler_with_group (c ∷ name) h = record h { scopes = h.scopes ++ (group (c ∷ name) ∷ []) }

pub record LogRecord : Type 0 where
  pub handler : Handler
  pub level : Level
  pub message : Bytes
  pub attrs : List Attr

-- slog.Logger.LogAttrs: the handler takes a record of its level or above.
unfoldable pub handle_record : Handler → Level → Bytes → List Attr → List LogRecord
unfolding severity
handle_record h level message attrs =
    if leb (severity h.options.level) (severity level)
    then record { handler = h; level = level; message = message; attrs = attrs } ∷ []
    else []

-- The attributes of a record in their order, each with the groups that it stands in.
unfoldable pub qualified : List Bytes → List Scope → List Attr → List (List Bytes × Attr)
qualified groups [] attrs = map (λ a. (groups, a)) attrs
qualified groups (attributes more ∷ scopes) attrs =
    map (λ a. (groups, a)) more ++ qualified groups scopes attrs
qualified groups (group name ∷ scopes) attrs = qualified (groups ++ (name ∷ [])) scopes attrs
