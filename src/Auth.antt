-- ===== src/Auth.antt =====
-- Accounts and tokens: executor/api/auth.py and executor/api/auth_routes.py, and the start-up of main.py
-- that adds an administrator.
pub mod Password
pub mod Tokens
pub mod Requests
pub mod Accounts
pub mod Startup
