-- ===== src/Nginx.antt =====
-- internal/nginx: the collector of the stub_status page.
pub mod Scan
pub mod Decimal
pub mod Collect
pub mod Scraped
pub mod Page
pub mod Examples
