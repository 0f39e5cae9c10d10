-- ===== src/Main/Served.antt =====
-- src/main.c: the receiving side as the whole program runs it.
pub mod Silent
pub mod Serving
pub mod Invariant
pub mod Laws
pub mod Rounds
pub mod Start
pub mod Parts
pub mod Whole
