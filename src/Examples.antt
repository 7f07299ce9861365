-- ===== src/Examples.antt =====
-- Each result at a concrete input, and tests of the definitions.
mod Graph
mod Stores
mod Tokens
mod SignIn
mod Queries
mod Auth
mod Limits
