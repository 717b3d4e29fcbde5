-- ===== src/Lib.antt =====
-- litehttp-c: an HTTP server on epoll.
--
-- The parts, from the bottom up. `util` has strings with a small buffer (util/string_t.c), views into
-- text, and the tables of messages and error codes. `http` has the request parser, which is fed the
-- text of a connection piece by piece and keeps its place in a node (http/http_parse_dfa.c), the
-- tables and header values (http/http_types.c), requests, responses, and the cache of mapped files
-- (http/resource_getter.c). `core` has the configuration, the sockets, the handler of one client's
-- events, which feeds the parser, answers the finished requests and writes the answers
-- (core/client.c), and the event loop (core/reactor.c) that hands events to a thread pool. All of
-- them are below src in the repository.
--
-- The files. Definitions carry the names of their C functions, types and fields.
--   Base: tests, lists, heap blocks, faults and C integers; no code of the repository.
--   Util/Message, Util/ErrorCode, Util/Log: util/error_code.c with message.def and http_ec.def, and the
--     calls that util/base.c makes of the logger.
--   Util/StringView, Util/StringT: util/string_t.c. A string is a small buffer, a pointer, a size and a
--     capacity. Its children hold the invariant (Valid) and the theorems, one file for each family
--     of operations. Util/Text is the contract of the strings that the other parts use: a section
--     parameter there, which `string_text` fills.
--   Http/Types, Http/HdrValue: http/http_types.c and its tables. The union of a header value is one
--     64-bit word.
--   Http/Request, Http/Response, Http/Resource: the C files of those names. The hash table of klib is a
--     record of operations and laws. Http/Resource/Threads has the same function in several threads, as a
--     step relation on the table and its mutex.
--   Http/ParseCtx, Http/Feed, Http/Chain: http/http_parse_dfa.c: the functions on one line, the state
--     machine with its labels as functions, and the chain of nodes. ParseCtx/Views has the views into a
--     node's text, which an append may move and a pop frees. Below Http/Feed, Append has the room for a
--     longer text; Steps, Fields and Message follow a whole request through the labels; Pieces follows
--     one that arrives in pieces: where its text can be cut (Split), the nodes that stand between two
--     pieces (States), and what a further piece makes of them (Enter, Pause, Finish); Surplus has the
--     bytes of a next request.
--   Core/Configure, Core/SocketUtil, Core/Dispatch, Core/Server, Core/Client, Core/Reactor, Core/Main:
--     the files of src/core and src/main.c. Core/Client takes what answers a request as an interface,
--     `Backend`, which `http_backend` fills from the dispatcher and the server. Below it, Events has one
--     event, Delivery and Life have sequences of events as relations, and Errors a request that fails.
--   Tests: the results below at concrete inputs.
--
-- How state and failure are modelled. State is a record that is passed on. `none` is a fault: an access
-- outside a block, a null or dangling pointer, undefined arithmetic, or an assertion that fails in a
-- build that keeps assertions (`Build` where the two builds differ). Error codes are values. The outcome
-- of an allocation or a system call is an argument. Numbers are natural numbers, and `size_t` arithmetic
-- wraps at 2^64 where the code can make it. A view is the bytes that it spans; when the block behind it
-- has moved or has been freed, what it reads then is an argument (`reads`).
--
-- Bounds and fuel. The bit length of a size looks at 64 bits, which every `size_t` has. The decimal
-- digits of an `int` are at most ten and those of a `size_t` at most twenty. The parser's `chain` has
-- fuel for one further node, and none is ever made. `serve_nodes` has as much fuel as the chain
-- has nodes, and each round frees one. Everything else is structural.
--
-- The parser's text grows by `string_append_view`, which is a fault where `next_capacity` and the `int`
-- offset are: a call gets a defined result up to a size of 2^30, and no theorem assumes more room.
--
-- Not modelled: the fault on a path of 2^30 bytes or more, which a text within the bound does not
-- have, what the logger does with its calls, the blocks that the code leaks where no result depends on
-- it, the interleaving of jobs on several threads other than in the cache, a release of the cache that
-- runs while a request is being served, chunked bodies (the code has none), the vendored containers,
-- and the tests.
pub mod Base
pub mod Util
pub mod Http
pub mod Core
mod Tests
