-- ===== src/Dispatcher.antt =====
-- src/core/ModuleEventDispatcher.cpp and .hpp: the queues between the messaging service and the
-- module, the subscriptions, and the thread that delivers. Poco's notification queues are lists,
-- the next entry first.
pub mod State
pub mod Control
pub mod Incoming
pub mod Steady
pub mod Delivery
pub mod Examples
