-- ===== src/OauthState.antt =====
-- backend/oauth_state.py: the stores of the authorization server's flow state.
pub mod Records
pub mod Stores
pub mod Tokens
pub mod Runs
pub mod Rows
pub mod Capped
pub mod Once
pub mod Nearest
pub mod Eviction
pub mod Consumption
