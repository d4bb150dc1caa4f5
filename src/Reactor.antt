-- ===== src/Reactor.antt =====
-- The event loop of src/reactor: Channel, Epoller and EventLoop.
pub mod Fds
pub mod Channel
pub mod EventLoop
pub mod Interest
pub mod Waiting
