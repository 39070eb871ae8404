-- ===== src/Logger/Records.antt =====
-- What a logger writes, whatever New and the methods that derive loggers made it of.
use goqtt.Base.Int.{ℤ, pos, negsuc}
use goqtt.Logger.Scopes.{
  handler_with_attrs_lem, qualified-group_scopes, handler_with_group_lem, group_scopes,
  qualified-attr_scopes, with_scopes, in_group, within, attr_scopes,
}
use goqtt.Logger.Defs.{
  convert_level, output_of, format_of, default_fields, new_logger, LogConfig, log_attrs,
  for_component, Logger, with_group, with_attrs,
}
use goqtt.Logger.Slog.{
  severity, new_handler, handle_record, Level, Handler, LogRecord, Attr, Scope, Writer,
  handler_with_attrs, qualified, Format,
}
use goqtt.Base.{
  ◌==◌, ◌*◌, arith, ℕ, inr, inl, Bool-cases, leb, append_assoc, if◌then◌else◌, ap, ◌∙◌, refl,
  append-nil, ◌≡◌, map, ◌++◌, List, ◌∷◌, [], Bytes,
}

-- A call that makes a logger of another one; `component_added` is NewMQTTLogger on a global logger.
pub data Derivation : Type 0 where
  attrs_added : List Attr → Derivation
  group_added : Bytes → Derivation
  component_added : Bytes → Derivation

unfoldable pub derive : Derivation → Logger → Logger
unfolding with_attrs with_group for_component
derive (attrs_added attrs) l = with_attrs attrs l
derive (group_added name) l = with_group name l
derive (component_added name) l = for_component name l

unfoldable pub derived : List Derivation → Logger → Logger
derived [] l = l
derived (d ∷ ds) l = derived ds (derive d l)

-- A record as it is read: each attribute with the groups that it stands in.
pub record Written : Type 0 where
  pub format : Format
  pub output : Writer
  pub level : Level
  pub message : Bytes
  pub attrs : List (List Bytes × Attr)

unfoldable pub written : LogRecord → Written
unfolding qualified
written r = record {
  format = r.handler.format;
  output = r.handler.output;
  level = r.level;
  message = r.message;
  attrs = qualified [] r.handler.scopes r.attrs;
}

-- The attributes of the derivations, in their order, and then the call's own: each in the groups
-- that were added before it.
unfoldable pub described : List Bytes → List Derivation → List Attr → List (List Bytes × Attr)
unfolding in_group
described groups [] attrs = within groups attrs
described groups (attrs_added more ∷ ds) attrs = within groups more ++ described groups ds attrs
described groups (group_added name ∷ ds) attrs = described (in_group groups name) ds attrs
described groups (component_added name ∷ ds) attrs = described (in_group groups name) ds attrs

scopes_of : Derivation → List Scope
unfolding group_scopes attr_scopes
scopes_of (attrs_added attrs) = attr_scopes attrs
scopes_of (group_added name) = group_scopes name
scopes_of (component_added name) = group_scopes name

handler-derive :
    (d : Derivation) (l : Logger) → (derive d l).handler ≡ with_scopes (scopes_of d) l.handler
unfolding derive scopes_of with_attrs with_group for_component
handler-derive (attrs_added attrs) l = handler_with_attrs_lem attrs l.handler
handler-derive (group_added name) l = handler_with_group_lem name l.handler
handler-derive (component_added name) l = handler_with_group_lem name l.handler

all_scopes : List Derivation → List Scope
unfolding scopes_of
all_scopes [] = []
all_scopes (d ∷ ds) = scopes_of d ++ all_scopes ds

qualified-all_scopes :
    (ds : List Derivation) (groups : List Bytes) (attrs : List Attr)
    → qualified groups (all_scopes ds) attrs ≡ described groups ds attrs
unfolding all_scopes described scopes_of qualified
qualified-all_scopes [] groups attrs = refl
qualified-all_scopes (attrs_added more ∷ ds) groups attrs =
    rw (
      qualified-attr_scopes more groups (all_scopes ds) attrs,
      qualified-all_scopes ds groups attrs,
    )
qualified-all_scopes (group_added name ∷ ds) groups attrs = rw (
  qualified-group_scopes name groups (all_scopes ds) attrs,
  qualified-all_scopes ds (in_group groups name) attrs,
)
qualified-all_scopes (component_added name ∷ ds) groups attrs = rw (
  qualified-group_scopes name groups (all_scopes ds) attrs,
  qualified-all_scopes ds (in_group groups name) attrs,
)

handler-derived :
    (ds : List Derivation) (l : Logger)
    → (derived ds l).handler ≡ with_scopes (all_scopes ds) l.handler
unfolding derived all_scopes
handler-derived [] l = rw (append-nil l.handler.scopes)
handler-derived (d ∷ ds) l =
    handler-derived ds (derive d l)
    ∙ ap (with_scopes (all_scopes ds)) (handler-derive d l)
    ∙ rw (append_assoc l.handler.scopes (scopes_of d) (all_scopes ds))

abbrev first_handler : LogConfig → Handler
first_handler c =
    new_handler (format_of c.format) (output_of c.output)
      (record { level = convert_level c.level; add_source = c.add_source })

-- All the scopes that a logger made by New and by derivations has.
abbrev made_scopes : LogConfig → List Derivation → List Scope
made_scopes c ds = attr_scopes (default_fields c) ++ (group_scopes c.component ++ all_scopes ds)

handler-new_logger :
    (c : LogConfig) (ds : List Derivation)
    → (derived ds (new_logger c)).handler ≡ with_scopes (made_scopes c ds) (first_handler c)
unfolding new_logger
handler-new_logger c ds =
    handler-derived ds (new_logger c)
    ∙ ap (with_scopes (all_scopes ds)) (
        handler_with_group_lem c.component (handler_with_attrs (default_fields c) (first_handler c))
        ∙ ap (with_scopes (group_scopes c.component))
            (handler_with_attrs_lem (default_fields c) (first_handler c)))
    ∙ rw (append_assoc (attr_scopes (default_fields c)) (group_scopes c.component) (all_scopes ds))

qualified-made_scopes :
    (c : LogConfig) (ds : List Derivation) (attrs : List Attr)
    → qualified [] (made_scopes c ds) attrs
      ≡ within [] (default_fields c) ++ described (in_group [] c.component) ds attrs
qualified-made_scopes c ds attrs = rw (
  qualified-attr_scopes (default_fields c) [] (group_scopes c.component ++ all_scopes ds) attrs,
  qualified-group_scopes c.component [] (all_scopes ds) attrs,
  qualified-all_scopes ds (in_group [] c.component) attrs,
)

written-handle_record :
    (h : Handler) (level : Level) (msg : Bytes) (attrs : List Attr)
    → map written (handle_record h level msg attrs) ≡ (
        if leb (severity h.options.level) (severity level)
        then record {
          format = h.format;
          output = h.output;
          level = level;
          message = msg;
          attrs = qualified [] h.scopes attrs;
        }
          ∷ []
        else [])
unfolding handle_record written
written-handle_record h level msg attrs =
    elim (Bool-cases (leb (severity h.options.level) (severity level))) [
      | inl high ↦ rw high
      | inr low ↦ rw low
    ]

-- The severity from which on a LogLevel lets records through: its own, ERROR's for FATAL, and
-- INFO's for a number that is no level.
unfoldable pub threshold : ℤ → ℕ
threshold (pos n) = if leb n 3 then 4 * n else if n == 4 then 12 else 4
threshold (negsuc n) = 4

severity-convert_level : (level : ℤ) → severity (convert_level level) ≡ threshold level
unfolding severity convert_level threshold
severity-convert_level (pos n) = ground arith
severity-convert_level (negsuc n) = refl

pub written-log_attrs :
    (c : LogConfig) (ds : List Derivation) (level : Level) (msg : Bytes) (attrs : List Attr)
    → map written (log_attrs (derived ds (new_logger c)) level msg attrs) ≡ (
        if leb (threshold c.level) (severity level)
        then record {
          format = format_of c.format;
          output = output_of c.output;
          level = level;
          message = msg;
          attrs = within [] (default_fields c) ++ described (in_group [] c.component) ds attrs;
        }
          ∷ []
        else [])
unfolding log_attrs
written-log_attrs c ds level msg attrs =
    ap (λ h. map written (handle_record h level msg attrs)) (handler-new_logger c ds)
    ∙ written-handle_record (with_scopes (made_scopes c ds) (first_handler c)) level msg attrs
    ∙ rw (qualified-made_scopes c ds attrs, severity-convert_level c.level)
