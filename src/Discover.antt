-- ===== src/Discover.antt =====
-- The service registry of discover/: the registration centre and the resolvers of its clients.
pub mod Registry
pub mod Resolver
