-- ===== src/Auth.antt =====
-- backend/auth.py and backend/google_login.py: the web session, logout, and the callback that ends a
-- sign-in at Google, over the stores of OauthState.
pub mod Exceptions
pub mod GoogleLogin
pub mod Sessions
pub mod Callback
