-- ===== src/Http.antt =====
-- Paged reads (src/lib/http/pagination).
pub mod Cursor
pub mod Query
