-- ===== src/Tui.antt =====
-- The terminal interface's stores (internal/tui).
pub mod Ring
pub mod Live
pub mod Traces
