-- ===== src/PortSync.antt =====
-- internal/portsync: the role that makes qBittorrent listen on the forwarded port.
pub mod Sync
pub mod Requests
pub mod Listens
