-- ===== src/Lib.antt =====
-- The FIX engine llfix. A FIX client owns one session; bytes from the socket are cut into messages
-- by the parser, checked by the session, counted in the sequence store and dispatched by type;
-- timers send heartbeats, test requests and resend requests. A FIX server owns many sessions: a
-- connection gets one by its first message, a logon, and a table keeps which connection serves
-- which session. The files and the parts that they model:
-- Common, with Common/Tests and Common/Lists: shared names, Boolean tests on numbers and list
-- lemmas.
-- Converters and its children: include/llfix/core/utilities/converters.h, unsigned integers and
-- text.
-- Utilities/Checksum, ChecksumSimd, MessageType, Framing, RejectText:
-- include/llfix/fix_utilities.h.
-- StringView, with Numbers and Timestamps: the format tests of include/llfix/fix_string_view.h.
-- Constants: include/llfix/fix_constants.h and include/llfix/fix_parser_error_codes.h.
-- Dictionary: include/llfix/core/utilities/dictionary.h, the hash table, with Chains, Growth,
-- Copies, Changes, Compaction, Removal and Unlinking for its chains, Laws, Updates and Removes,
-- which show it to be a map, and Bounds and Shrinks for the size of its node cache.
-- Message, with Groups, GroupLaws and Tags: include/llfix/incoming_fix_message.h and
-- include/llfix/incoming_fix_repeating_groups.h.
-- Outgoing, with Load, Texts, EncodeLaws, EncodeChecks and LoadLaws:
-- include/llfix/outgoing_fix_message.h.
-- GroupSpecs: include/llfix/incoming_fix_repeating_group_specs.h.
-- Serialiser: include/llfix/electronic_trading/common/message_serialiser.h.
-- Client: include/llfix/fix_client.h, with Send for what it sends, Dispatch for what it receives,
-- Timers, Shutdown and Admin, whose `process` composes them as the source does. A send that finds
-- the connection lost calls on_connection_lost, as the transport does; Transport has the outcomes
-- of a send. Silence and SilentRuns show what its runs do about a silent server.
-- Server: include/llfix/fix_server.h, with Connectors for the table of connections, Send, Logon,
-- Dispatch, Timers, Admin and Receive, whose `process_rx_buffer` is the server's, with the client's
-- parser, which it repeats word for word. Session addresses are numbers. Of Server's other
-- children, Tables, Isolation, SendIsolation, WorkIsolation, OneSession, MessageIsolation, Only and
-- ReceiveIsolation show that work on one session leaves the others alone, Steps has the steps of
-- the whole server, Runs the receive loop as a run over the messages, and Acceptance, Accepted,
-- SendLaws, LogonLaws, SequenceLaws and Lapses what its operations do.
-- Throttler, with Window and Rates: include/llfix/electronic_trading/session/throttler.h and
-- include/llfix/core/utilities/ring_buffer.h.
-- Parser, with Fields, Rounds, Runs, Values, Tags, RoundTrip and EncodeParse: process_rx_buffer of
-- include/llfix/fix_client.h, which is the client's.
-- Session: State, SequenceStore and Schedule for the files of the same names under
-- include/llfix/electronic_trading/session, and ThrottlerAction, Record, Builders, Receive and
-- Validate for include/llfix/fix_session.h. The files whose names end in Laws hold theorems.
-- Examples: runs at concrete inputs.
-- Texts and buffers are lists of character codes. Numbers are natural numbers, and a `uint32_t` or
-- a `uint64_t` has its wrap-around written out. Pointers into the receive buffer are the bytes that
-- they point to. Seven loops run on fuel: the loops for the bit length of a number and for its
-- digits have as many rounds as the number says, where a round halves it or takes a tenth; the loop
-- that unpacks a message type has one round for each of its bytes; the vector loop of the checksum
-- has one round for each byte of the buffer, where a round takes 32 bytes; the search for tag 10
-- has one round for each place before its start; and the loops over the received messages, of the
-- client and of the server, have one round for each byte, where a message has several. The C
-- library's `timegm`, the clock and the socket are arguments.
-- Not modelled: sockets, files, logging, configuration, the management server, the dictionary
-- validator, which is compiled in on demand only, and the fields with binary data. The client's
-- sending leaves out the throttler, which is modelled on its own, the log and the plugins. The
-- server leaves out worker threads, locks, the log, the plugins, the record of incoming messages
-- and the adding of sessions; what the user's code and the transport answer comes from its
-- environment, and the server's hash table of sessions is a list.
pub mod Common
pub mod Transport
pub mod Converters
pub mod Constants
pub mod Utilities
pub mod Message
pub mod Outgoing
pub mod Session
pub mod Serialiser
pub mod Client
pub mod GroupSpecs
pub mod Parser
pub mod StringView
pub mod Throttler
pub mod Server
pub mod Dictionary
pub mod Examples
