-- ===== src/Messaging.antt =====
-- src/messaging_implementation/ZmqZmfMessagingServiceImplementation.cpp and .hpp: the messaging
-- service on ZeroMQ.
pub mod State
pub mod Peers
pub mod Topics
pub mod Requests
pub mod Poller
pub mod Examples
