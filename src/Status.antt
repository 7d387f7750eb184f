-- ===== src/Status.antt =====
-- What is kept of a network between reads, src/status/: where each client went (moves.ts).
pub mod Moves
