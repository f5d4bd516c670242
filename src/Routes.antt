-- ===== src/Routes.antt =====
-- src/ocbridge/routes.go: the routes to push, without the address of the gateway.
pub mod Exclude
pub mod Split
