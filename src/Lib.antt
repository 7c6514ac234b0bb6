-- ===== src/Lib.antt =====
-- The verification library of lswasm, a server that runs proxy-wasm filters over HTTP/1.1 or
-- LSAPI. The event loop reads a request's headers and hands the connection to a worker of the
-- thread pool. The worker parses the request, passes it through the chain of filters, and talks to
-- the event loop through a ConnectionIO; a filter may answer at once, change headers, or stream a
-- response through the foreign functions, which drive the state machine of its LsWasmContext and,
-- through it, the response sink of the transport.
--
-- The files and the code they are about:
-- * Base and its children: Boolean tests on numbers, lists, text as character codes, numerals,
--   and association lists with the laws of lookup. They model no code of their own but
--   std::map's find, assignment and erase, and the numerals of snprintf and the streams.
-- * HttpUtils (src/http_utils.h): header names, the status line and the serialised headers, and
--   in HttpUtils/Pairs deserialize_header_pairs.
-- * ConnectionIo (src/connection_io.h): class ConnectionIO, one function per method.
--   ConnectionIo/Read and ConnectionIo/Write are about single calls, and ConnectionIo/System
--   about any interleaving of the event loop and the worker.
-- * ResponseSink (src/response_sink.h) with ResponseSink/Http (src/http_response_sink.h) and
--   ResponseSink/Lsapi (src/lsapi_response_sink.h). ResponseSink/Chunked is a decoder of chunked
--   transfer coding, written from RFC 9112 and not from the code.
-- * Context (src/wasm_module_manager.h, class LsWasmContext): the header maps in
--   Context/HeaderMaps; the streaming state machine and the foreign functions of src/main.cpp in
--   Context/Streaming; the calls that read from the proxy-wasm host, the stubs and the calls on
--   metrics in Context/Host; what the sink sees in Context/Protocol and what the connection
--   carries in Context/Written, for a single call, and Context/Delivery. Context/Sinks follows
--   two sinks at once through a filter's calls, and Context/Transports compares the two
--   transports with it.
-- * HttpFilter (src/http_filter.h, and RequestScope::init of src/wasm_module_manager.h): the
--   data of a request, the pseudo headers and onRequestHeaders; the later phases in
--   HttpFilter/Phases; how far a chain goes in HttpFilter/Chain, and what a module's turn is in
--   HttpFilter/Turns; the pseudo headers that a filter finds in HttpFilter/Pseudo, over the
--   searches of HttpFilter/Lookup.
-- * MetricStore (src/wasm_module_manager.h, class MetricStore): definition, increment, record
--   and read of metrics, in MetricStore/Define, MetricStore/Values and MetricStore/Entries;
--   MetricStore/Uniqueness is about the names and identifiers of a store,
--   MetricStore/Identifiers about whole runs.
-- * Server (src/main.cpp, class HttpServer): Server/Request is parse_request and
--   extract_content_length, Server/Response is build_local_response, write_chunked and the
--   headers of the final response, Server/Diagnosis is build_response_body, with a reader of the
--   modules that it lists in Server/Diagnosis/Listed; Server/Handler is handle_request, with
--   what it leaves alone in Server/Handler/Silence and what it writes in Server/Handler/Output;
--   Server/Lsapi is the LSAPI transport (lsapi_handle_request and run_lsapi_loop, with
--   lsapi_header_cb and the data of a request in Server/Lsapi/Data), with the names of headers
--   in Server/Lsapi/Names the endings of a request in Server/Lsapi/Outcome, and what the library
--   gets in Server/Lsapi/Sent; Server/Listener is the listening socket (tcp, uds, start_tcp,
--   start_uds and the destructor), and Server/Listener/Closing counts its closings.
-- * ThreadPool (src/thread_pool.h): the queue, the workers and the shutdown, under any
--   interleaving in ThreadPool/System and ThreadPool/Drain, and after a stop in
--   ThreadPool/Progress.
-- * EventLoop (src/main.cpp, accept_connections): EventLoop/Setup has the descriptors that are
--   opened before the loop and closed behind it; then the state of a connection and the calls on
--   its descriptor; its branches for one connection in EventLoop/Handlers; the map of the
--   connections and any order of events and worker calls in EventLoop/Loop. EventLoop/Invariant
--   says what holds of a connection, EventLoop/Bridge what the calls do to a ConnectionIO,
--   EventLoop/Framing how bytes are cut into headers and body; EventLoop/Turns,
--   EventLoop/Sending and EventLoop/Safety are about single turns, EventLoop/Runs and
--   EventLoop/Wakeup about whole runs, and EventLoop/Refinement joins the turns to the steps of
--   ConnectionIo/System.
-- * ModuleManager (src/wasm_module_manager.h and src/wasm_module_manager.cc, class
--   WasmModuleManager): the map of the modules, and its order in ModuleManager/Order;
--   RequestScope and createRequestScope in ModuleManager/Scope, and who ends a stream context in
--   ModuleManager/Ownership.
-- * Samples (samples/send_recv_stream, samples/send_recv_all and samples/sample_filter): the
--   three filters over a record of what a filter can call. Samples/Lawful says what that record
--   does when the server is the one modelled here; below Samples/SendRecvStream,
--   Samples/SendRecvAll and Samples/SampleFilter the filters run on that server.
-- * HashShim (src/hash_shim.cc): BytesToHex and Sha256String.
-- * CommandLine (src/main.cpp, main; log_init of src/log.h): the loop over the arguments and the
--   choice of what is run; the reading of values in CommandLine/Values, and of values that are
--   written out in CommandLine/Numbers; CommandLine/Sane is about any arguments,
--   CommandLine/Settings about those that are written from settings.
--
-- The models. A struct is a record and a method a function on it; the calls that change a shared
-- object return the new object. A method under a mutex is one step. The two blocking waits of
-- ConnectionIO return none while their condition does not hold, and the caller is then not past
-- the wait; the same is so of the wait of a pool's worker, and of handle_request while it waits
-- for a body. The response sink of a request is one object that all its contexts point to:
-- HttpFilterContext keeps its state, lends it to a context for a callback, and takes it back. In
-- the event loop a connection keeps, beside the fields of ConnCtx, histories that the code does
-- not have: the calls made on its descriptor, the bytes received, those handed over as body and
-- those that the worker's reads have returned, how many signals of its worker had been given when
-- the eventfd was last read, and whether the end of the input was seen. The scan of the eventfd
-- makes four locked calls on a connection, and so does the turn of EPOLLOUT (pendingWriteData,
-- advanceWrite, isWritePending, isFinished); either is one step here, and what the worker may do
-- between them is not among the runs. setError writes to the eventfd after it has let go of its
-- mutex: the count of the signals has this write from the moment that the flags are set, as given
-- or about to be given, and the eventfd may be read at any time in the runs, so that also a scan
-- between the two is among them; a connection that was erased is kept in a second list, since its
-- worker may still hold the ConnectionIO. The kernel's answers to recv and send, the events, and
-- the results of the LSAPI and proxy-wasm calls are arguments. The proxy-wasm SDK, WASI and
-- lswasm_streaming.h, which the filters are compiled with, are not in the repository: what a
-- filter can call is the record FilterApi, and a request over the server instantiates it. A size_t
-- of a filter has 32 bits. Numbers are natural numbers, and where the code keeps a value of 32 or
-- 64 bits that may wrap, the remainder is written out; size_t counters of bytes are not wrapped,
-- since they count bytes in memory. Text is a list of character codes.
--
-- Fuel. The loops of parse_request, extract_content_length and write_chunked run on fuel equal to
-- the length of the text, and each turn takes a character at least; the theorems on parse_request
-- and write_chunked hold of the functions with that fuel, and so need no hypothesis on it. The
-- decoder of the specification takes one unit of fuel for each chunk, and the theorems give it one
-- more than there are parts.
--
-- Not modelled: the proxy-wasm host is a parameter (ProxyWasm of HttpFilter, and the answers in
-- ModuleManager), and so are OpenSSL and the calls of the LSAPI library (lsapilib.c, a library of
-- its own); logging has no effect on the state and is left out; the signal handlers, the shutdown
-- sequence of main, the factories of virtual machines, and a descriptor that is reused within one
-- batch of events are not part of this library.
pub mod Base
pub mod HttpUtils
pub mod ConnectionIo
pub mod ResponseSink
pub mod Context
pub mod HttpFilter
pub mod MetricStore
pub mod ModuleManager
pub mod HashShim
pub mod Server
pub mod ThreadPool
pub mod EventLoop
pub mod CommandLine
pub mod Samples
