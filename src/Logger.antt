-- ===== src/Logger.antt =====
-- internal/logger/logger.go: the loggers, their configuration, and the global one.
pub mod Slog
pub mod Defs
pub mod Events
pub mod Scopes
pub mod Records
mod Tests
