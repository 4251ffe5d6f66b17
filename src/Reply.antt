-- ===== src/Reply.antt =====
-- include/zmf/ZmfOutReply.hpp and include/zmf/ZmfInReply.hpp: the reply that a module owes to a
-- request, and the handle of a reply that it waits for.
pub mod Out
pub mod In
mod Examples
