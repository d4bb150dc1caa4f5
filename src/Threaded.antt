-- ===== src/Threaded.antt =====
-- ChatroomServer (src/chatroom_server.cpp): the server that runs on HttpServer's thread pool.
pub mod Accounts
pub mod Rooms
pub mod Messages
pub mod Static
pub mod Routes
pub mod Lifecycle
pub mod Racing
