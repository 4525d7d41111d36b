-- ===== src/Command.antt =====
-- pkg/command: what the agent and the server tools share, and the commands that both offer.
pub mod Config
pub mod Version
pub mod TokenFile
pub mod HostNames
pub mod BootstrapToken
pub mod New
pub mod Network
pub mod Credentials
pub mod AclToken
pub mod TokenCreation
pub mod ServiceToken
