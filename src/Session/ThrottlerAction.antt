-- ===== src/Session/ThrottlerAction.antt =====
-- include/llfix/electronic_trading/session/incoming_throttler_action.h.
use llfix.StringView.{equals}
use llfix.Common.{ℕ, List, if◌then◌else◌}
use llfix.Utilities.RejectText.{codes}

pub data IncomingThrottlerAction : Type 0 where
  no_action : IncomingThrottlerAction
  wait_action : IncomingThrottlerAction
  reject_action : IncomingThrottlerAction
  disconnect_action : IncomingThrottlerAction

unfoldable pub string_to_incoming_throttler_action : List ℕ → IncomingThrottlerAction
string_to_incoming_throttler_action val =
    if equals val (codes "WAIT")
    then wait_action
    else if equals val (codes "REJECT")
    then reject_action
    else if equals val (codes "DISCONNECT")
    then disconnect_action
    else no_action
