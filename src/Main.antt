-- ===== src/Main.antt =====
-- src/main.c: the program.
pub mod Loop
pub mod Cleanup
pub mod Program
pub mod Walk
pub mod Stages
pub mod Ends
pub mod Served
