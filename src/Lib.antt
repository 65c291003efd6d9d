-- ===== src/Lib.antt =====
-- Verification of crablib, a library of HTTP and WebSocket connections (include/crab).
--
-- The program. A connection reads bytes from a socket into a buffer and feeds them to parsers,
-- each a state machine that may stop after any byte and go on when more bytes arrive:
-- RequestParser or ResponseParser for a header, BodyParser for a body, and, after an upgrade,
-- WebMessageHeaderParser and WebMessageBodyParser for frames. What stands inside a header or a
-- body is taken apart by QueryParser, CookieParser and URIParser, by url_decode and by the integers
-- of integer_cast.hpp. For writing there are RequestHeader::to_string, the chunks and frames
-- of a connection with WebMessageHeaderSaver, url_encode, to_hex and IntegerSaver. Bytes wait in
-- a Buffer, a ring that is one of several streams; the run loop keeps its timers in an
-- IntrusiveHeap.
--
-- The model. A parser is a record with the fields of its class, and `consume` a function by the
-- cases of its `switch`; a state that falls through to the next calls that one's function. A byte
-- is a number below 256, a string a list of bytes; a `uint64_t` and a `size_t` have 64 bits, and
-- wrap where the source does not test. An exception is a `Result` with the exception's class and
-- message; nested exceptions and the values that a message goes on with are left out. A pointer
-- that a parser returns is the list of bytes from it on.
--
--   Base                  numbers, lists, Boolean tests and results that all modules use
--   Bits                  bit operations on numbers
--   Chars, Chars.Hex      include/crab/http/types.hxx (classes of characters), util.hxx
--                         (to_hex, from_hex)
--   Loop, Loop.Chunks     the loops of the `parse` functions, over bytes and over ranges
--   WebMessage.Header     include/crab/http/web_message_parser.hpp, .hxx: the header of a frame
--   WebMessage.Mask       mask_data of the same file, and rol of util.hpp
--   WebMessage.Body       WebMessageBodyParser
--   WebMessage.Layout     frames of RFC 6455 as a reader that is independent of the code
--   IntegerCast           include/crab/integer_cast.hpp, unsigned types
--   Http.Header           include/crab/http/types.hpp, and the header branches that requests and
--                         responses share
--   Http.RequestState, Http.Request, Http.ResponseState, Http.Response
--                         include/crab/http/request_parser.hpp, .hxx and response_parser.hpp, .hxx
--   Http.Body             BodyParser of request_parser.hxx
--   Http.Chunked          the chunks that include/crab/http/connection.hxx writes
--   Http.BufferedSocket   BufferedTCPSocket of connection.hpp, .hxx; Pending, Flush and Sent on
--                         single calls, Runs on all sequences of them
--   Http.ServerConnection the writing side of ServerConnection of connection.hpp, .hxx; Sends and
--                         Responses on the bytes of a response, Messages and Fragments on those of a web message, in one
--                         frame and in several
--   Http.Url, Http.Query, Http.Cookie, Http.Uri
--                         include/crab/http/query_parser.hpp, .hxx
--   Http.Print            to_string_common and RequestHeader::to_string of types.hxx
--   Http.Print.Response   ResponseHeader::to_string, is_websocket_upgrade, set_uri and get_uri of it
--   Streams               include/crab/streams.hpp, .hxx: IStream and OStream with their loops
--   Streams.Contract      what every stream promises
--   Streams.Buffer        Buffer; Parts, Content and Queue on the bytes it holds, ReadFrom and Transfer
--                         on read_from and write_to
--   Streams.IMemory, Streams.OMemory, Streams.Vector, Streams.Combined
--                         the other streams
--   Intrusive.Heap        include/crab/intrusive_heap.hpp; Hole and Order on the loops, Steps and
--                         Api on the operations
--   Intrusive.Ring        include/crab/intrusive_list.hpp; Contents and Api on the nodes of a list
--   Network.Timer         Timer and RunLoopLinks::process_timer of include/crab/network.hpp, .hxx
--   Tests                 runs at concrete inputs
--
-- Bounds and fuel. The loops over single bytes recurse on their input. The loops over ranges
-- (Loop.Chunks) have one round more than there are bytes; each round but the last takes a byte or
-- ends the parser, and the theorems on them show that the rounds suffice. The length of an integer's
-- buffer is computed on as many rounds as the type has bits, and `%llx` on 16 for the digits of 64
-- bits. The loops of the heap run on the slots, that of process_timer on the timers that are due,
-- those of the streams on the bytes to be moved; their theorems say that they end.
--
-- A BufferedTCPSocket stands on a socket that is a parameter, a state with its functions. The calls
-- that a ServerConnection makes of its BufferedTCPSocket are a list that its functions give back.
--
-- A node of the heap or of a list and a timer are numbers that stand for addresses, and their
-- members are functions on them. A time is a number of nanoseconds. A stream is a state with its virtual
-- function, and what it must do is a hypothesis of the theorems on its users.
--
-- The parts of the state that lie in memory are arguments: `gap` is the distance of the bytes to
-- the next address that is a multiple of 8, which `std::align` finds, and the theorems hold for
-- all of them. Reserving capacity is not modelled. rol at a shift of 0, which the source leaves
-- undefined, is taken to give the number back.
--
-- Not modelled: sockets, event loops, TLS and threads (system calls and OpenSSL); the reading side
-- of the connections on top of the parsers, the client's connections, and servers; hashes, Base64,
-- UTF-8 and random numbers, which are adapted from other projects; signed integers as text;
-- write_to of CombinedIStream.
pub mod Base
pub mod Chars
pub mod Loop
pub mod Bits
pub mod IntegerCast
pub mod Http
pub mod WebMessage
pub mod Tests
pub mod Intrusive
pub mod Network
pub mod Streams
