-- ===== src/Retransmission.antt =====
-- networking/retransmission_protocol.cpp and .h: the messages of the retransmission protocol.
pub mod Protocol
pub mod DataResponse
