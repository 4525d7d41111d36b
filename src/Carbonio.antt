-- ===== src/Carbonio.antt =====
-- pkg/carbonio: the local configuration of the host and the LDAP directory of the installation.
pub mod LocalConfig
pub mod Ldap
