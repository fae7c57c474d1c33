-- ===== src/Transport.antt =====
-- What a send of include/llfix/core/utilities/tcp_connector.h and tcp_reactor.h comes to for its caller.
use llfix.Common.{Bool, true, false}

-- Where the connection is found lost, the transport reports that and closes the connection itself.
pub data SendOutcome : Type 0 where
  delivered : SendOutcome
  undelivered : SendOutcome
  connection_lost : SendOutcome

abbrev pub is_delivered : SendOutcome → Bool
is_delivered delivered = true
is_delivered undelivered = false
is_delivered connection_lost = false

abbrev pub is_lost : SendOutcome → Bool
is_lost delivered = false
is_lost undelivered = false
is_lost connection_lost = true
