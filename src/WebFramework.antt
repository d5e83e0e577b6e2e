-- ===== src/WebFramework.antt =====
-- app/web_framework: what stands between a request and the services.
pub mod Handler
pub mod Master
pub mod Routes
