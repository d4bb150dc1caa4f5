-- ===== src/Db.antt =====
-- DatabaseManager (src/db/database_manager.cpp): the modules below have its methods, and what they
-- do to the tables of the database.
pub mod Connection
pub mod Users
pub mod Rooms
pub mod Messages
pub mod Texts
pub mod Injection
pub mod Writes
pub mod Reads
pub mod Listings
pub mod Questions
pub mod Store
pub mod Traces
