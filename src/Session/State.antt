-- ===== src/Session/State.antt =====
-- include/llfix/electronic_trading/session/session_state.h: the states of a session, in their order.
use Prim.Native.String.{String}
use llfix.Common.{ℕ, Bool, leb, ◌==◌}

pub data SessionState : Type 0 where
  none_state : SessionState
  disabled : SessionState
  disconnected : SessionState
  logged_out : SessionState
  logon_rejected : SessionState
  pending_connection : SessionState
  pending_logon : SessionState
  pending_logout : SessionState
  logged_on : SessionState
  in_retransmission_initiated_by_self : SessionState
  in_retransmission_initiated_by_peer : SessionState

-- The value of the enumerator.
abbrev pub rank : SessionState → ℕ
rank none_state = 0
rank disabled = 1
rank disconnected = 2
rank logged_out = 3
rank logon_rejected = 4
rank pending_connection = 5
rank pending_logon = 6
rank pending_logout = 7
rank logged_on = 8
rank in_retransmission_initiated_by_self = 9
rank in_retransmission_initiated_by_peer = 10

infix 50 ◌=state◌
abbrev pub ◌=state◌ : SessionState → SessionState → Bool
a =state b = rank a == rank b

abbrev pub is_state_live : SessionState → Bool
is_state_live s = leb (rank logged_on) (rank s)

-- What the source shows for a state.
unfoldable pub convert_session_state_to_string : SessionState → String
convert_session_state_to_string none_state = "None"
convert_session_state_to_string disabled = "Disabled"
convert_session_state_to_string disconnected = "Disconnected"
convert_session_state_to_string logged_out = "Logged out"
convert_session_state_to_string logon_rejected = "Logon rejected"
convert_session_state_to_string pending_connection = "Pending connection"
convert_session_state_to_string pending_logon = "Pending logon"
convert_session_state_to_string pending_logout = "Pending logout"
convert_session_state_to_string logged_on = "Logged on"
convert_session_state_to_string in_retransmission_initiated_by_self =
    "In retransmission initiated by self"
convert_session_state_to_string in_retransmission_initiated_by_peer =
    "In retransmission initiated by peer"
