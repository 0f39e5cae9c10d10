-- ===== src/Advertise.antt =====
-- src/advertise.c and src/advertise.h: the program's service is advertised by mDNS.
pub mod Types
pub mod Interfaces
pub mod Strings
pub mod Records
pub mod Respond
pub mod Service
