-- ===== src/Gpu.antt =====
-- GPU request admission: internal/gpu/request.go (the request store and its operations),
-- internal/gpu/routing.go (the placement poll loop).
pub mod Request
pub mod Requests
pub mod Routing
