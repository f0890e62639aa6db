-- ===== src/Kapi.antt =====
-- kapi.h and kapi.c: the registry of import resolvers.
pub mod Info
pub mod Ladder
pub mod Resolver
pub mod Registry
pub mod Negative
