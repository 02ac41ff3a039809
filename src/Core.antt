-- ===== src/Core.antt =====
-- app/core/: what the process counts, its settings and the headers of its proxies.
pub mod Metrics
pub mod ProxyHeaders
pub mod Settings
pub mod Tests
