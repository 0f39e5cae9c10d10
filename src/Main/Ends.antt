-- ===== src/Main/Ends.antt =====
-- src/main.c: whole runs of the program: whether they return and with which status, what they have given
-- back by then, and what they tell, send and wait for.
pub mod Returns
pub mod Cleanup
pub mod Closes
pub mod Frees
pub mod Balance
pub mod Settled
pub mod Retracts
pub mod Farewell
pub mod Status
pub mod Tells
pub mod Grants
pub mod Traffic
pub mod Attends
