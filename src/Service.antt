-- ===== src/Service.antt =====
-- src/argusd_impl.cc and src/health_impl.cc: the gRPC service around the C library. A string is
-- the list of its bytes, without NUL.
pub mod Subject
pub mod Masks
pub mod Log
pub mod Paths
pub mod Labels
pub mod Health
pub mod Watchers
pub mod Starts
pub mod Server
