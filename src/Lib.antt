-- ===== src/Lib.antt =====
-- The Spore OS client libraries: a parser for the line protocol between a node and the daemon
-- (parser/), and a C++ client with a C interface on top of it (spore_c/). A node connects to the
-- daemon, sends messages as lines of text and gets messages back, which the parser cuts into
-- tokens, builds into a message and validates; the client hands each to the handlers registered for
-- its kind.
--
-- parser/source/parser.{h,cpp}: Parser.Lexer (`tokenize`, a machine that reads a byte at a time and
--     looks one byte ahead), Parser.Build (`build`), Parser.Validate (`parse`, `validate`, errors).
--     Proofs: Parser.Tokens (the invariants of the machine), Parser.Clean (no zero bytes),
--     Parser.Contents (what the noted properties say of the message), Parser.Accepts (what is
--     accepted), Parser.Splits, Parser.Parts and Parser.Described (what parsing leaves, field by
--     field), Parser.Beside and Parser.Blanks (two texts with a blank between them), Parser.Sizes
--     (how much is written).
-- parser/source/message.{h,cpp}: Parser.Message. parser/source/spore_parser.cpp: Parser.Api.
-- spore_c/source/message, request, response, witness and publish: Wire.Message (setters, getters
--     and serializers), over Wire.Map, which stands for std::map and std::set as strictly
--     increasing lists. Proofs: Wire.Sorted, Wire.SortedSet, Wire.SetEquality, Wire.MapEquality,
--     and Wire.Additions (the order in which a message is filled).
-- spore_c/source/spore_c.cpp, lines 15-46 and the five `create_from_raw`: Wire.Raw. Proofs:
--     Wire.Items says which texts the wire can carry; Wire.Scan, Wire.ScanItems, Wire.Rebuild,
--     Wire.Reparse, Wire.Populate and Wire.Replies take a serialized message through the tokenizer,
--     the builder and populateMessage, and Wire.RoundTrip puts them together for each kind. Lines
--     48-72: Wire.Copies. Wire.ErrorFields is about error responses, Wire.LineEnds about
--     `parseRaw`.
-- spore_c/source/spore_c.cpp, the rest: Capi, with Capi.Client for the client and a module for each
--     of the five kinds of messages. What the kinds have in common, arguments and flags, is the
--     interface Capi.ArgApi, a record of operations and laws; Capi.Kinds fills it for each kind.
-- spore_c/source/client.{h,cpp} and defs.h: Client.State, Client.Handlers, Client.Platform (the
--     path of the socket), Client.Connect (with the destructor), Client.Send, and for `listen`
--     Client.Frame (lines to messages), Client.Dispatch (messages to calls of handlers) and
--     Client.Listen (the loops). Proofs about listening: Client.Stream (a description byte by
--     byte), Client.Fuel, Client.Defined (null pointers), Client.Messages (framing apart from
--     handling), Client.Calls (the loops over handlers), Client.Refused (what validation refuses).
--     From one client to another: Client.Delivery (a request of one line), Client.Shapes (lines and
--     blocks), Client.Arrival (each kind of message as it arrives), Client.Packets (the five kinds
--     together), Client.InOrder (many messages). About the connection: Client.Sockets,
--     Client.Handshake, Client.Outcome. About handlers: Client.Registry, Client.HandlerOrder,
--     Client.Freeing, Client.Holding and Client.Lifetime. Threads: Client.Threads.
-- Objects: Memory has the parser's handles (Memory.Handles), the five `create_from_raw`
--     (Memory.FromRaw), the destroy functions (Memory.Destroy) and the messages of `listen`
--     (Memory.Lines) over a heap, Memory.Heap, on which a handle is an address; a use of what is
--     not live is undefined behaviour. Memory.Pair is about a parser and a parsed message side by
--     side.
-- Base has what these share. Tests runs the definitions, and applies the theorems, at concrete
--     inputs.
--
-- How the code is read. A std::string is a list of bytes, each a natural number; a pointer that may
-- be null is an Option, and a text that passes through a `const char*` ends at its first zero byte.
-- A method takes the object and returns it. What undefined behaviour would give is `none`. The
-- handlers that are live are an argument of `unregister_handler`, which reads one through its
-- pointer. The tokenizer's position, an `int` in the code, is no number here, so messages are taken
-- to be shorter than 2^31 bytes. `depth`, a `size_t`, is a number without a bound, and so is
-- `nextId`, an `int`: fewer than 2^31 handlers are taken to be registered.
--
-- The operating system is a parameter: the record Client.Connect.Os has its answers to the calls of
-- one `connect`, Client.Send.Writes whether each write succeeds, and `listen` takes the list of
-- what its reads give, in which an empty read, or the end, is an end of file or an error. A write
-- that succeeds is taken to write everything, as the code does. The platform is a part of
-- Client.Connect.Os, and of the branches for each platform those in which they differ are modelled.
-- Handlers are addresses; calling them gives an event, and they are taken not to register or
-- unregister handlers and not to change the message while they run. A call of a sending function is
-- one step, but for Client.Threads, which has the steps of many threads in `writeRaw` and its
-- mutex.
--
-- The inner loop of `listen` takes one line from the buffer at each turn, and runs on fuel; it is
-- given the length of the buffer, which is enough, since each turn takes a byte at least
-- (Client.Fuel). The other loops are structural recursion; the handshake's has the 63 bytes of its
-- buffer.
--
-- Not modelled: an allocation that fails; a failure of WSAStartup or of setsockopt, which the code
-- does not look at; the types and macros by which each platform names its sockets and calls; the
-- public headers, which declare what the sources define; the Go bindings of spore_go/; the tests.
pub mod Base
pub mod Capi
pub mod Client
pub mod Memory
pub mod Parser
pub mod Tests
pub mod Wire
