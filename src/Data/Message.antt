-- ===== src/Data/Message.antt =====
-- include/zmf/ZmfMessage.hpp.
use zmf.Prelude.{Bytes}
use zmf.Data.MessageType.{MessageType}

pub record ZmfMessage : Type 0 where
  pub type : MessageType
  pub payload : Bytes
