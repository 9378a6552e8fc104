-- ===== src/Api.antt =====
-- The web interface: executor/api/main.py and executor/api/routes.py.
pub mod Middleware
pub mod Scans
pub mod Scores
pub mod Charts
