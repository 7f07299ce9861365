-- ===== src/McpOauth.antt =====
-- backend/mcp_oauth.py: the OAuth 2.1 authorization server of the MCP clients.
pub mod Refusals
pub mod Tokens
pub mod Grants
pub mod Issuance
pub mod Rotation
pub mod Redemption
pub mod Replays
pub mod Endpoint
pub mod Anonymous
pub mod Registration
pub mod Authorization
