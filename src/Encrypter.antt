-- ===== src/Encrypter.antt =====
-- pkg/encrypter: the encrypted tarball of cluster credentials.
pub mod Reader
pub mod Writer
