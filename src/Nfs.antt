-- ===== src/Nfs.antt =====
-- rpc/nfs: a client that turns typed commands into remote calls (nfs_client.c), and the server that
-- carries them out on its files (nfs_server.c). Texts are lists of character codes without the closing 0.
pub mod Text
pub mod Client
pub mod Server
