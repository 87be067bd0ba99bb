-- ===== src/Lib.antt =====
-- The TDS client library tedious: the states of its connection, its packet layer, its write buffer, its token stream
-- parser with the values of rows, its token handlers and the payloads of prelogins, logins, transactions and batches.
--
-- The program talks the Tabular Data Stream protocol. A message is cut into packets by
-- lib/outgoing-message-stream.js and put together again by lib/incoming-message-stream.js, on top of
-- lib/packet.js. The bytes of a request are composed in lib/tracking-buffer/writable-tracking-buffer.js. The
-- payload of a response is a stream of tokens: lib/token/stream-parser.js collects its chunks and calls the
-- parser of each token type, which reads with the functions of lib/token/helpers.js, for the columns of a
-- result with those of lib/metadata-parser.js, lib/data-type.js and lib/collation.js, and for the cells of a row
-- with those of lib/value-parser.js. Each token then goes to the handler of lib/token/handler.js that the state of
-- the connection has chosen, which changes the connection and its request.
--
-- The files, with what they model:
--   Prelude: shared names; Prelude/Bits the bitwise operations, Prelude/Int the integers, Prelude/Double the
--     rounding of integers to doubles.
--   Buffer: Node's Buffer as the list of its bytes, strings as lists of UTF-16 code units.
--   Read: lib/token/helpers.js. A reader maps a buffer and an offset to a Result, to NotEnoughDataError or
--     to another error, and `do` threads the offset. Read/Stable says what a reader must keep to when the
--     buffer grows, Read/Fixed and Read/Variable show it of every reader, Read/Complete is for round trips.
--   TrackingBuffer: lib/tracking-buffer/writable-tracking-buffer.js, one definition for each write.
--   Packet: lib/packet.js; Packet/Layout has the bytes of the packets that are built.
--   Outgoing, Incoming: the two message streams. A state is the fields of the stream with what it has pushed;
--     the events of Node's streams are the arguments, in the order in which they happen.
--   Collation, DataType, Metadata: lib/collation.js, lib/data-type.js and lib/metadata-parser.js.
--   Guid: lib/guid-parser.js.
--   Value: lib/value-parser.js. Value/Scalars, Value/Dates and Value/Strings read the kinds of values, Value/Cells
--     is readValue, Value/Variant reads sql_variant; Value/Plp is the specification of readPLPStream. A double that
--     arithmetic makes is kept as its operands, a Date as the arguments of its constructor.
--   Token: the classes of lib/token/token.js and, a file for each, the parsers of DONE, INFO and ERROR, LOGINACK,
--     ORDER, RETURNSTATUS, RETURNVALUE, ENVCHANGE, FEATUREEXTACK, SSPI, FEDAUTHINFO, of one column of COLMETADATA
--     and, on the whole bytes, of ROW and NBCROW (lib/token/*-token-parser.js, lib/token/*-parser.js).
--   StreamParser: class Parser of lib/token/stream-parser.js. StreamParser/Wait has the retries,
--     StreamParser/Cells readPLPStream on chunks and the cells of a row, StreamParser/Rows the rows and
--     RETURNVALUE, StreamParser/Tokens the loops, StreamParser/Whole the specification, StreamParser/Refine
--     and StreamParser/Reading the refinement of one reading, StreamParser/Chunks that of the whole stream.
--   Handler: lib/token/handler.js. Handler/Session has the changes of the environment and
--     InitialSqlTokenHandler, Handler/Login7 and Handler/Request the handlers of a login and of a request,
--     Handler/Dispatch the loop that gives each token to its method. A call of emit or close appends to a list.
--   Connection: the states of lib/connection.js, transitionTo, the enter and exit functions and cleanupConnection.
--     Connection/Steps has the calls of the user, the timers and the events of the socket, Connection/Responses
--     what the states do with the responses, whose tokens go to Handler, and Connection/Run a history: a list of
--     inputs, in any order. An async function is a task from each of its awaits on; an input that
--     brings what it waits for lets it go on, in whatever state the connection is by then. The answer `none` is an
--     error that nothing catches. Connection/Run/Order is about all histories, Connection/Run/Settled about the timely
--     ones, in which what comes is what the state waits for, Connection/Run/Answered about one request.
--   Payload: lib/all-headers.js, lib/transaction.js and lib/sqlbatch-payload.js, on the writes of TrackingBuffer.
--   Prelogin: lib/prelogin-payload.js. LoginPayload: lib/login7-payload.js, as the list of the writes of toBuffer;
--     LoginPayload/Layout has the fields that each of them makes, LoginPayload/Points the reading of the table.
--   Tests: concrete runs.
--
-- Fuel and bounds. The loop of `_write` takes at least a byte a round from what is buffered, so the buffered
-- length is fuel enough, and likewise for processBufferedData, whose packets have eight bytes at least. A
-- reading of the token parser waits at most once for each chunk; parseTokens makes at most two rounds for
-- each chunk and one for each byte. A round of the FEATUREEXTACK loop takes a byte at least, and one of
-- readPLPStream its four bytes of length, so the bytes at hand are rounds enough. A round of extractOptions
-- has five bytes. A write refuses what Node refuses: values outside their width.
--
-- The package iconv-lite, which decodes text in a code page, is the parameter `decode`: any function of the code
-- page and the bytes.
--
-- Not modelled: the sockets, the TLS handshake and the clocks (lib/message-io.js, lib/connector.js), whose events are
-- inputs of a connection; the validation of its configuration; the NTLM and RPC payloads, the encoders of
-- lib/data-types/, bulk load and Always Encrypted. A call-back runs behind the step that calls it, so that what it
-- calls is the next input. The pauses of a request only delay its tokens; they, back pressure and debug output are
-- left out. Floats are their bit patterns.
-- For a malformed sql_variant, whose declared length is less than its own head, the source slices backwards; the model ends
-- there with the mark outside_model. An 'error' that is emitted on a connection has a listener. What the call-back of a
-- request calls is taken to come behind the cleanup that calls it back. The URL class of Node is a field of Settings.
pub mod Buffer
pub mod Collation
pub mod Connection
pub mod DataType
pub mod Guid
pub mod Handler
pub mod Incoming
pub mod LoginPayload
pub mod Metadata
pub mod Outgoing
pub mod Packet
pub mod Payload
pub mod Prelogin
pub mod Prelude
pub mod Read
pub mod StreamParser
pub mod Tests
pub mod Token
pub mod TrackingBuffer
pub mod Value
