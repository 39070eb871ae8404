-- ===== src/Main/Lines.antt =====
-- The lines that the global logger writes, of a configuration that lets INFO through.
use goqtt.Logger.Slog.{severity, Attr, Level}
use goqtt.Logger.Records.{threshold, written-log_attrs, written, Written, derived, described}
use goqtt.Logger.Scopes.{within, in_group}
use goqtt.Logger.Defs.{
  log_attrs, default_fields, new_logger, output_of, format_of, get_global_logger, LogConfig,
}
use goqtt.Main.{Log}
use goqtt.Base.{le→leb, ◌∙◌, map-append, ◌++◌, map, ◌≤◌, ◌≡◌, List, ◌∷◌, [], Bytes}

-- The line of a logger that New makes of a configuration.
unfoldable pub line : LogConfig → Level → Bytes → List Attr → Written
unfolding in_group
line c level msg attrs = record {
  format = format_of c.format;
  output = output_of c.output;
  level = level;
  message = msg;
  attrs = within [] (default_fields c) ++ within (in_group [] c.component) attrs;
}

-- The global logger is New's of `c`, or it will be; `c` lets INFO through; `before` is written.
pub record IsLog (c : LogConfig) (before : List Written) (log : Log) : Type 0 where
  pub global : (get_global_logger log.globals).0 ≡ new_logger c
  pub low : threshold c.level ≤ 4
  pub lines : map written log.lines ≡ before

pub line-log_attrs :
    (c : LogConfig) (level : Level) (msg : Bytes) (attrs : List Attr)
    → threshold c.level ≤ severity level
    → map written (log_attrs (new_logger c) level msg attrs) ≡ line c level msg attrs ∷ []
unfolding line described derived
line-log_attrs c level msg attrs low =
    written-log_attrs c [] level msg attrs ∙ rw (le→leb (threshold c.level) (severity level) low)

-- One line more.
pub written-lines :
    {c : LogConfig} {before : List Written} {log : Log} (level : Level) (msg : Bytes)
    (attrs : List Attr)
    → IsLog c before log
    → threshold c.level ≤ severity level
    → map written (log.lines ++ log_attrs (get_global_logger log.globals).0 level msg attrs)
      ≡ before ++ (line c level msg attrs ∷ [])
written-lines {c} {before} {log} level msg attrs is low =
    map-append written log.lines (log_attrs (get_global_logger log.globals).0 level msg attrs)
    ∙ rw (is.lines, is.global, line-log_attrs c level msg attrs low)
