-- ===== src/Data/Reply.antt =====
-- include/zmf/ZmfOutReply.hpp: what a module answers to a request.
use zmf.Data.Message.{ZmfMessage}

-- The reply types, with the message of an immediate one.
pub data ZmfOutReply : Type 0 where
  immediate_reply : ZmfMessage → ZmfOutReply
  future_reply : ZmfOutReply
  no_reply : ZmfOutReply
