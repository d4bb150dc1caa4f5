-- ===== src/Http.antt =====
-- The HTTP layer of src/http: requests, responses and the server's dispatch.
pub mod Find
pub mod Query
pub mod Request
pub mod Response
pub mod Encode
pub mod Printed
pub mod Parsed
pub mod Server
pub mod Sending
pub mod Reading
pub mod Exchange
pub mod Listener
pub mod Accepting
pub mod Stopping
