-- ===== src/Lib.antt =====
-- Verification of kruda, a web framework in Go: the router with its compilation, the HTTP/1.x request
-- parser of the Wing transport, its responses, the WebSocket package, server-sent events, the cache's
-- store in memory, the dependency container and smaller parts.
--
-- How the parts work together: the transport hands the bytes of a connection to
-- parseHTTPRequestInternal (wing_http.go), which gives a request and the number of bytes consumed;
-- the application looks the method and the path up in the Router (router.go), which fills the
-- routeParams of the context (ctx_lifecycle.go) and gives a chain of handlers; a handler may upgrade
-- the connection, which then carries frames (contrib/ws/frame.go).
--
-- Base: numbers, lists and byte strings, shared. A string or a slice of bytes is a list of bytes.
--
-- Router/Params: routeParams with set, get, del, reset (ctx_lifecycle.go), the reset of ServeFast
--   (serve_fast.go) and Ctx.Route (ctx_request.go). The array and its count are the list of the first
--   items; Params/Valid says which are valid, Params/Deletion and Params/Laws are about its operations.
-- Router/Method, Router/Segments: methodIndex, and the parsing of a route into segments with the
--   test of a regular expression (router.go). Router/Build holds the panics of registration as
--   values, and the engine of regular expressions as a parameter, since it is Go's regexp.
-- Router/Tree: node, insertRoute, insertStatic, splitAndInsert. A chain of handlers is a number.
--   split_and_insert goes down along a path and runs on fuel; each call starts it with more than the
--   length of the string to insert, and each round takes a byte of it where the children are indexed by
--   their first bytes. They are not below a literal that starts with a byte from 0x80 on, since Go's
--   string(b) of such a byte, which extends the indices, is two bytes; there the bound is not shown.
-- Router/Find: findInNode; a result has the handlers, the parameters after the search and the nodes
--   whose hits go up. Find/Spec says which paths a tree accepts and what a proper radix tree is,
--   Find/Sound and Find/Complete compare the search with it, Find/Radix builds proper trees.
-- Router/Table: Router, newRouter, addRoute, find, findAllowedMethods, over a heap of roots, since
--   methodTrees and trees share them.
-- Router/Compile: Compile with optimizeNode, flattenNode, collectStaticRoutes, collectPaths and
--   the cache of allowed methods. A loop over the map of the trees goes through its table in order;
--   sort.SliceStable is an insertion sort. Compile/Covers, Merge, Flatten, Optimize and Sorted are
--   about the passes over a tree, Compile/Radix and FlatRadix about the index by first bytes,
--   Compile/Paths, Serves and StaticMap about the static map, Compile/Hits and AllowedCache about
--   the cache, Compile/Tree about both passes.
-- Router/CleanPath: cleanPath and isTraversal (router.go), with url.PathUnescape and path.Clean as
--   parameters; CleanPath/Escape says which paths leave the directory that they start in.
--
-- Http/Lexical: the tests on bytes, numbers and tokens (wing_http.go); Lexical/Decimal is about btoi.
-- Http/Headers: one header line and the loop over them; the loop runs on fuel, as much as the window
--   is long, and each round takes a byte or more. Headers/Counts counts the lines of each
--   kind, Headers/Fuel is about the fuel.
-- Http/Request: parseHTTPRequestInternal; Request/Stages, Request/Framing and Request/Pipeline are
--   about what an accepted request is.
-- Http/Classify: classifyIncomplete, which looks at a buffer that the parser refused. strconv.Atoi is
--   a parameter; ReadsDigits is what the code relies on. Classify/Lines and Classify/Prefix compare it
--   with the parser.
--
-- Http/HeaderMap: wingHeaders, the headers of a response; Http/Response: wingResponse and, in
--   Response/Serial, the bytes that each of its lanes writes, with the chunk of the date as a parameter.
--   Response/Digits, Response/Lines, Response/Lanes and Response/Framing are about these bytes.
-- Http/Adapter: Header, QueryParam and the interning of methods; Adapter/Laws and Adapter/Query are
--   about them.
--
-- Ws/Frame: readFrame, writeFrame, maskBytes (contrib/ws/frame.go). A reader is the list of the bytes
--   that it still has. Frame/Encoding is the encoding of RFC 6455, Frame/RoundTrip and Frame/Sound
--   compare the code with it.
-- Ws/Close: the payload of a close frame, with utf8.Valid as a parameter.
-- Ws/Conn: ReadMessage, WriteMessage, Close and handleControl (contrib/ws/conn.go), each a step on the
--   state of a connection that may fail. The clock and the delivery of writes are parameters, deadlines
--   and the lock are left out. A call of ReadMessage may take as many rounds as the reader has bytes.
--   Conn/Assembly is about fragmented messages, Conn/Closing about close frames and refusals, over one
--   operation and over the life of a connection, Conn/Termination about the rounds, with
--   Frame/Progress about the bytes that a frame takes from the reader.
--
-- Sse: the operations of SSEStream (sse.go); the error of the context, the encoder and the writer are
--   parameters. Sse/Client is a reader by the rules of the HTML standard, Sse/Lines, Sse/Heard and
--   Sse/Stream compare what it hears with what was sent.
--
-- Cache: MemoryStore (contrib/cache/memory_store.go). The order in which a loop visits the map is a
--   parameter. Cache/Store is about single operations, Cache/Life about a store over its whole life.
--
-- Etag: the comparison of a tag with If-None-Match (contrib/etag/etag.go). Etag/Laws compares the loop
--   over a list of tags with a split, Etag/Pieces says which piece matches.
-- Container: the registrations of the container (container.go); Container/Use: Use, UseNamed and
--   Warmup, where a factory is a script of the services that it resolves, and Use within Use runs on
--   fuel, one round more than there are factories that are not on the stack; Container/Lifecycle:
--   Start and Shutdown, which record the calls of the services' methods. Container/Kept, Total, Cached,
--   Registered and Rollback are about them.
-- PathTraversal: middleware/pathtraversal.go, with url.PathUnescape and path.Clean as parameters.
--
-- Not modelled: the transports and event loops, the upgrade of contrib/ws, binding, validation, more
-- than one goroutine in the container, and the remaining packages. Locks, pools, strings that share the
-- read buffer, and the atomic counters' width are left out of the modelled parts.
pub mod Base
pub mod Http
pub mod Router
pub mod Ws
pub mod Sse
pub mod Cache
pub mod Etag
pub mod PathTraversal
pub mod Container
