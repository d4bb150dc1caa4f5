-- ===== src/Epoll.antt =====
-- ChatroomServerEpoll (src/chatroom_server_epoll.cpp): the server that runs on the event loop.
pub mod Accounts
pub mod Rooms
pub mod Messages
pub mod Http
pub mod Static
pub mod Routes
pub mod Connections
pub mod Lifetime
pub mod Calls
pub mod Runs
pub mod Closing
pub mod Loop
pub mod Shutdown
pub mod Lines
pub mod Parsed
pub mod Reading
pub mod Exchange
