-- ===== src/Lib.antt =====
-- Geldstrom: a FinTS client library (packages/geldstrom) and a banking gateway (apps/gateway).
--
-- The library turns segments into bytes and back, keeps a dialog with the bank over numbered messages,
-- adds TAN segments where the bank asks for them, and fetches results page by page; its clients open and close
-- the connections, and keep a challenge until it is approved. The gateway keeps
-- the operations that wait for an approval, and lets their owners poll them. Paths below are from
-- packages/geldstrom/geldstrom/infrastructure (fints/...) and from apps/gateway/gateway.
--
-- - Prelude: library names, Boolean tests, lists measured by native numbers, and `Outcome`, a call
--   that returns or raises.
-- - Wire: fints/protocol/tokenizer.py (Wire.Tokenizer) and the two static functions of
--   fints/protocol/parser.py, `explode_segments` (Wire.Parser) and `implode_segments`
--   (Wire.Serializer). Bytes are numbers; a generator is the data type `Tokens` of what it yields.
-- - Segments: fints/protocol/base.py and fints/dialog/message.py: parsed segments, the searches in
--   them, and the numbering when they join a message. `Body` has the segment classes that the dialog
--   code tells apart, with the fields that it reads.
-- - Responses, Parameters, Tan: fints/dialog/responses.py, fints/protocol/parameters.py and
--   fints/dialog/tan_strategies. A challenge handler is a function.
-- - Dialog: fints/dialog/core.py with the envelope of fints/dialog/security.py. A method is a function
--   from the dialog and the state of the connection to an outcome and both again, so that an exception
--   keeps what was changed before it. `Connection` stands for the HTTP transport, the reading of the
--   answer and the bank, and may answer anything. Dialog.Session runs any sequence of calls.
-- - Paging: fints/operations/pagination.py over the interface `Port`, which the dialog fills in
--   Paging.Requests. `Bank` states what a bank promises that serves pages; either of the two
--   behaviours that the source names, with HKTAN on continuations or without, is one.
-- - Clients: fints/support/connection.py (Clients.Connect), what fints/services do with a dialog
--   (Clients.Fetching), and clients/fints3.py and clients/fints3_decoupled.py of
--   packages/geldstrom/geldstrom (Clients.Fints3 and Clients.Decoupled). `World` has the open
--   connections of the process by number; a method is a function from the client and the world to an
--   outcome and both again. `Operations` stands for the requests of fints/operations in a dialog,
--   `BlobCodec` and `Formats` for compression, JSON and texts.
-- - Operations: fints/operations/helpers.py, the choice of a segment class that the bank supports
--   (Operations.Versions), and fints/operations/accounts.py with `get_accounts` of the user parameters
--   (Operations.Accounts). An account without a list of allowed transactions is a value, and the loop
--   over it raises.
-- - Gateway: infrastructure/cache/memory/operation_session_store.py (Gateway.Sessions),
--   domain/banking_gateway/operations.py and application/common/time.py (Gateway), and the commands
--   poll_operation.py, get_operation_status.py and authenticate_consumer.py of the application
--   (Gateway.Poll). `Services` stands for what they call: repositories, the verifier of keys, the
--   connector to the bank and the clock. Gateway.RateLimit is
--   presentation/http/middleware/rate_limit.py. Gateway.Fetch has the four other commands of
--   application/banking/commands over the interface `BankingConnector`, which
--   infrastructure/banking/geldstrom/connector.py (Gateway.Connector) fills with the clients above
--   in Gateway.Connector.Implements. Gateway.Iban is `RequestedIban`.
-- - Tests: concrete messages, dialogs, banks and stores.
--
-- Fuel: the tokenizer takes one round for each byte at most, since every match takes a byte, and its
-- fuel is the number of bytes; the paginator's fuel is `max_pages`, which bounds its loop. All other
-- recursion is structural. Numbers are Python's, without a bound, and so natural numbers here. A method
-- of a client, a command of the gateway and a poll of an operation is one step: what another request
-- does while one waits for the bank is not modelled.
--
-- Not modelled: HTTP, logging and callbacks; the size in the message header; the reading of raw
-- segments into declared classes; the requests for balances and transactions; MT940 and CAMT contents;
-- the refusal of blank texts in the credentials of a request; the databases, Redis, routers and
-- administration.
pub mod Prelude
pub mod Wire
pub mod Segments
pub mod Responses
pub mod Parameters
pub mod Tan
pub mod Dialog
pub mod Paging
pub mod Clients
pub mod Operations
pub mod Gateway
pub mod Tests
