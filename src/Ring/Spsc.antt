-- ===== src/Ring/Spsc.antt =====
-- One producer and one consumer on a shared ring buffer, an atomic access at a time. The accesses of
-- `rb_push` and `rb_pop` are the steps; between them the other side may move. Sequential consistency
-- stands for the release and acquire orders that the code asks for.
pub mod Defs
pub mod Invariant
pub mod Order
pub mod Progress
