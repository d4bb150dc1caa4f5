-- ===== src/Tests.antt =====
-- Runs of the model on the platform of Platform/Sample.antt.
pub mod Fixture
pub mod Database
pub mod Services
mod Servers
mod Logger
mod Timer
mod Racing
mod TimerThread
mod Pool
mod Connections
mod Http
mod Accepting
mod Main
mod Conversation
mod Exchange
mod Chat
mod OverHttp
mod Agreement
