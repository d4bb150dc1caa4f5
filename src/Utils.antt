-- ===== src/Utils.antt =====
-- The utilities of src/utils.
pub mod Counting
pub mod ThreadPool
pub mod Timer
pub mod Due
pub mod Logger
pub mod Logged
pub mod LogNames
pub mod LogStream
