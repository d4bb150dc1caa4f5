-- ===== src/Service.antt =====
-- What the chat room does for its users: the handlers of src/chatroom_server_epoll.cpp against the
-- tables of the database.
pub mod Fields
pub mod Accounts
pub mod Session
pub mod Rooms
pub mod Messages
pub mod Listing
pub mod Conversation
pub mod Exchange
pub mod OverHttp
