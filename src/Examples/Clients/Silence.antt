-- ===== src/Examples/Clients/Silence.antt =====
-- A client whose server keeps silent at concrete inputs.
use llfix.Client.Timers.{process_outgoing_resend_request_if_necessary, delta}
use llfix.Examples.Sessions.{session}
use llfix.Common.{true, refl, arith, leb, ◌*◌, ◌%◌, ◌^◌, ◌≡◌}
use llfix.Examples.Clients.{env, client}
use llfix.Client.{FixClient}
use llfix.Session.State.{disconnected}
use llfix.Client.SilentRuns.{silent_runs, silent_server}
use llfix.Client.Silence.{time_read}

abbrev waiting : FixClient
waiting = record client {
  session = record session {
    expecting_response_for_outgoing_test_request = true;
    outgoing_test_request_timestamp_nanoseconds = 75000000000;
  };
}

is_late :
    leb (10000000000 * 2 % 2 ^ 64) (delta (time_read env (silent_runs env 0 waiting)) 75000000000)
    ≡ true
unfolding process_outgoing_resend_request_if_necessary
is_late = refl

silent_server_example : (silent_runs env 1 waiting).session.state ≡ disconnected
silent_server_example = silent_server env waiting 0 refl refl refl (ground (arith, is_late))
