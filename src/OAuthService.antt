-- ===== src/OAuthService.antt =====
-- app/services/oauth_service.py: the sign-in and the linking of an account at Google or GitHub.
pub mod Inactive
pub mod Invariant
pub mod Handshake
pub mod Verified
pub mod Exchange
pub mod Owners
pub mod Ownership
mod Providers
mod States
mod Accounts
pub mod Profiles
mod Identities
unfoldable pub use Providers.*
unfoldable pub use States.*
unfoldable pub use Accounts.*
unfoldable pub use Identities.*
