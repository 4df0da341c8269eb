-- ===== src/Scanner.antt =====
-- The process scanner (src/proc_scanner.c, src/proc_scanner.h).
pub mod Stat
pub mod Table
pub mod TopN
mod Tests
