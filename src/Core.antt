-- ===== src/Core.antt =====
-- src/core: the configuration, the sockets, the requests and the event loop.
pub mod Configure
pub mod SocketUtil
pub mod Dispatch
pub mod Server
pub mod Client
pub mod Reactor
pub mod Main
