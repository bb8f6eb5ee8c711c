-- ===== src/Lib.antt =====
-- aws-c-io: channels of handlers on event loops, the sockets, host resolver and bootstrap that make them,
-- the memory, futures and retries that go with them, PEM files, and keys in PKCS#11 tokens.
--
-- The parts and how they interact. A channel (source/channel.c) is a list of slots with a handler each.
-- Handlers of other modules (sockets, TLS, users) send messages to their neighbours, open read windows,
-- schedule tasks and answer a shutdown; messages come from the message pool of the event loop
-- (source/message_pool.c). Futures (source/future.c) carry one result to one callback, which may run on an
-- event loop or a channel. Retry strategies (source/retry_strategy.c and its two implementations) decide
-- whether and when an operation is tried again; the standard one stands on exponential backoff. A client's
-- bootstrap (source/channel_bootstrap.c) asks the host resolver (source/host_resolver.c) for addresses,
-- connects sockets (source/posix/socket.c) on a loop that the event loop group (source/event_loop.c)
-- chooses, and sets up a channel whose first slot has the socket's handler
-- (source/socket_channel_handler.c); that handler sends messages by the channel's own functions. A handler
-- of private key operations (source/pkcs11_tls_op_handler.c) holds a session of a PKCS#11 library
-- (source/pkcs11_lib.c) and signs or decrypts for TLS with a key of its token. PEM files (source/pem.c)
-- are parsed for the TLS options; input streams (source/stream.c,
-- source/async_stream.c) stand alone.
--
-- Which file models which part:
--   Base       names from the libraries, Boolean tests on numbers, lists, 64-bit words, error codes
--   Common     what is taken from aws-c-common's math.h and clock.h, as a record of functions and laws
--   Bootstrap  source/channel_bootstrap.c, the client: Steps is what each step keeps, Setup about
--              the setup callback and the references, Shutdown about the shutdown callback;
--              Server is a listener with its channels, and Server.Serving about them
--   Channel    source/channel.c: the records of a slot and of a channel
--     Channel.Slots     aws_channel_slot_new, _insert_right, _insert_left, _insert_end, _remove, _replace and
--                       the message overheads; Order is about lists of slots, Links relates the pointers
--                       to a list, Walk, Overhead and Leftwards are about the loops along the pointers
--     Channel.Window    aws_channel_slot_send_message, _increment_read_window, _set_handler and the window
--                       update task; Flow is the account of bytes, Flush the task, Handler set_handler and
--                       aws_channel_slot_acquire_max_message_for_write
--     Channel.Tasks     aws_channel_schedule_task_now, _serialized and _future from both sides of the lock, and
--                       the tasks that fetch, run and cancel; Accounts counts tasks, Closing is the shutdown
--     Channel.Shutdown  s_channel_shutdown, s_shutdown_task, aws_channel_slot_on_handler_shutdown_complete
--     Channel.Lifetime  aws_channel_acquire_hold, _release_hold and s_final_channel_deletion_task
--   EventLoop  source/event_loop.c: the load of a loop, aws_event_loop_group_get_next_loop and
--              s_event_loop_group_new; Load and Group
--   Future     source/future.c: aws_future_impl_*; Callbacks and Results
--   Host       source/host_resolver.c: the caches of one host and process_records,
--              resolver_record_connection_failure, s_update_address_cache; Lru is the cache of aws-c-common,
--              Purge and Promote are the two loops, Failures the rest, Keys, Caches and Kept the invariant
--     Host.Resolver     the resolver's state, its table and entries
--     Host.Entry        the resolver's table, aws_host_resolver_thread, default_resolve_host, the purges and
--                       the destruction; Table sums over entries, Present and Valid are about the table, Answers about
--                       the callbacks, Closing about the clean-up
--   Memory     the allocator that the pools use: a heap of addresses, which may refuse
--   MessagePool source/message_pool.c: aws_memory_pool_* and aws_message_pool_*
--   Pem        source/pem.c: the type names, s_extract_header_type_cur; Pem.Sanitize is
--              aws_sanitize_pem (Ends and Rejects about it); Pem.Parse is
--              s_convert_pem_to_raw_base64, Pem.Parse.Reference the parse that it is compared to
--   Pkcs11     source/pkcs11_lib.c, over a record of what the library's functions answer; Slots and Keys are
--              its operations, Loading its life, Asn1 the encoding of ECDSA signatures, which Integer
--              and Der read back, Choice is about the key and the prefixes of RSA signatures; Handler is
--              source/pkcs11_tls_op_handler.c, and Balance about its sessions
--   Stream     source/stream.c: aws_input_stream_read and the stream over a byte cursor; Stream.Async is
--              source/async_stream.c
--   PosixSocket source/posix/socket.c: aws_socket_write, s_process_socket_write_requests, s_written_task and
--              aws_socket_close; Loop, Requests, Purge, Fifo and Order
--   SocketHandler source/socket_channel_handler.c: s_do_read and the handler's other functions; Reads and
--              Charges are one read, Events are histories
--   Retry      include/aws/io/retry_strategy.h: the kinds of errors
--     Retry.Backoff     source/exponential_backoff_retry_strategy.c
--     Retry.Standard    source/standard_retry_strategy.c
--
-- State is passed explicitly. Pointers are numbers that index a store, or an Option for those that may be
-- NULL. Numbers are natural; where the source computes in size_t or uint64_t, `u64` or a saturating
-- operation stands for the wrap or clamp. A critical section is one step, and threads interleave as
-- sequences of steps; calls into other modules are parameters, or effects and calls in a log, and what
-- such a call does to the channel is a later step.
--
-- Fuel: the loops along adj_right take a number of slots, since each round goes one slot on; the run of a
-- shutdown takes two calls a slot, one in each direction; the PEM loop two rounds a line and one more,
-- since each line is seen once in either pass; aws_sanitize_pem two rounds a byte and one more; a socket
-- handler's read one round a byte, and a socket's write one for each byte and each request, since the
-- pool, the socket and the kernel always take some; a job that fills a buffer four rounds a byte and four
-- more. A loop that is short of fuel answers what it has, the
-- PEM loop `running`.
--
-- Not modelled: the event loops of the platforms and their system calls, the states of connecting,
-- listening and accepting sockets, IOCP sockets, pipes, TLS and the platforms' key stores, the resolution
-- by the system, streams over files, statistics and logging, which are mostly calls
-- of the system or of other libraries; of the modelled parts, aws_channel_new and its setup task, the
-- purge of the host resolver with a callback, the shutdown of an event loop group, waiting on a future,
-- the destruction of retry strategies, base64, and the names of PKCS#11's values and its mutexes.
-- Allocation fails only in Memory, and with aws_channel_new for a client. Calls of an exponential backoff
-- token's schedule_retry do not overlap in the model, and a cache of the host resolver has room for an address;
-- what follows a use of freed memory, where the model says that one happens, is left open.
pub mod Base
pub mod Bootstrap
pub mod Common
pub mod Channel
pub mod EventLoop
pub mod Future
pub mod Host
pub mod Memory
pub mod Pem
pub mod MessagePool
pub mod Pkcs11
pub mod PosixSocket
pub mod Retry
pub mod SocketHandler
pub mod Stream
