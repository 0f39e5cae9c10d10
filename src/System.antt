-- ===== src/System.antt =====
-- The surroundings of the program: values, effects, answers, and actions over the trace.
pub mod Types
pub mod Event
pub mod Env
pub mod Controls
pub mod Signals
pub mod Grants
pub mod Traffic
pub mod Monad
pub mod Objects
pub mod Descriptors
pub mod Ledger
pub mod Notices
pub mod Terminal
