-- ===== src/Lib.antt =====
-- jnet-lib: asynchronous sockets, files and HTTP, over epoll on Linux and completion ports on
-- Windows. The model is of the Linux program, and of the service, the sends, the receives and the
-- reading of lines of the Windows program.
--
-- The parts and how they meet. A program starts operations on sockets, files and connections. The
-- service (epoll_service.cpp) keeps the operations that have completed in a queue; each thread in
-- `run` takes one of them and calls its `complete`, which calls back into the program or starts
-- the next part. A file (epoll_file.cpp) has a thread of its own that does the system calls and
-- hands each operation to the service. A web server (http_server.cpp) keeps a connection for each
-- client alive as long as operations on it are under way.
--
-- The files of the model:
-- - Base, with Base.Int, Base.Lists and Base.Tests: names of the library, lists over the native
--   numbers, Boolean tests.
-- - Errors, Errors.Code: iocp_error.h and iocp_error.cpp. An `error_code` is a value with the
--   describer that reads it.
-- - Buffer: the cursors of iocp_buffer.h, `const_buffer` and `mutable_buffer`; size_t arithmetic
--   is modulo 2^64.
-- - Posix, Posix.Errno: the system calls on files, a record `Files` of functions on a state of
--   the system that the model does not look into. A call answers with a number or with an errno.
-- - File.Calls: the file section of epoll_service.cpp, one function for each call.
-- - File.Transfer: `read_op` and `write_op` of epoll_file.cpp. `do_read`, `read_complete` and
--   `read_all` are `do_read`, `on_complete` and the two in turn; File.Transfer.Read and
--   File.Transfer.Write prove what a whole transfer does, from what their children prove of a
--   round.
-- - File.Queue: the entries of the file thread, `push`, `pop` and `file_thread_loop`, as steps
--   that interleave; File.Queue.Chain shows that the linked entries are a list, File.Queue.Order
--   what the steps keep.
-- - File.Control: `create`, `open`, `close`, `truncate` and the others of `iocp::file`, which
--   take the system, the descriptor and give the error code. File.Control.Resize and
--   File.Control.Protocol have the proofs.
-- - Posix.Sockets, Socket.Calls, Socket: the system calls on sockets, the socket section of
--   epoll_service.cpp, and what `socket_ops` does with a descriptor.
-- - Socket.Send, Socket.Recv: `send_op` and `recv_op` of epoll_socket.cpp. `Phase` says whether
--   the operation is queued, waits for its event or has called back; `Step` is what the service,
--   an event or another process does. Socket.Accept is `accept_op`, in the same way;
--   Socket.Accept.Accepted has its proof. Socket.Send.Bytes, Socket.Recv.Bytes and
--   Socket.Recv.Eof have the proofs.
-- - File.Kmp: `build_kmp_table` and `find_eol` of epoll_file.cpp. File.Kmp.Period has the theory
--   of borders, File.Kmp.Table and File.Kmp.Search the proofs of the two functions.
-- - File.Line: `read_line_op` of epoll_file.cpp, `do_read` and `on_complete`; File.Line.Split has
--   its proof.
-- - Ssl: `engine` of ssl_socket.cpp over a record `OpenSsl` of the library calls that it makes.
--   Ssl.Engine says what the code relies on in OpenSSL.
-- - Ssl.Io: `ssl_base_op` and the operations on it. `turn` is the loop of `io_operation` from the
--   call of `op_` on, `resume` its part behind the label `default`; a `Phase` says what the
--   operation waits for when `io_operation` returns. Ssl.Io.Flow has the histories of an
--   operation and of its flags, Ssl.Io.Count what it makes of a failure without an error.
-- - Http: http_socket.h and http_socket.cpp, the operation that receives a request. A `Parser`
--   stands for http_parser: `execute` gives a `Run`, the calls that http_parser_execute makes,
--   each of which goes on by what the callback returned. Http.Headers, Http.Received and
--   Http.Once have the proofs.
-- - Iocp: iocp_service.h and iocp_service.cpp, the service on Windows. A `Service` holds what the
--   service holds, the completion port, what the kernel is to complete and what each thread has
--   in its hands; `Step` is a step of a thread or of the kernel. Iocp.Delivery says where an
--   operation can be, and its children prove that it is completed once, with its result;
--   Iocp.Delivery.Completes, that it can be completed, over Iocp.Delivery.Noticed,
--   Iocp.Delivery.Drain and Iocp.Delivery.Taken. Iocp.Send and Iocp.Recv are `send_op` and
--   `recv_op` of iocp_socket.cpp: in a `Sending` the two halves of `on_complete` are steps of
--   their own, since the operation is started again between them; Iocp.Send.Single,
--   Iocp.Send.Race and Iocp.Recv.Received have the proofs. Iocp.Calls has the initiating
--   functions `send`, `recv`, `read`, `write`, `accept` and `connect` of the service, each of
--   which is a history of its steps. Iocp.Line is `read_line_op` of iocp_file.cpp: Iocp.Line.Same
--   compares it with Linux, and Iocp.Line.Twice follows its second read through the service.
-- - Fiber: fiber_scheduler.cpp and fiber_socket.cpp. `acquire` and `release` are the two halves
--   of `zwitch`, before and after the switch of the stack; `Step` is what the fiber and the
--   threads do, in any order. Fiber.Resumed has the invariant, Fiber.Progress that a fiber can go
--   on.
-- - Web: http_server.cpp. `Context` is `ConnectionContext`, with the list of operations that were
--   started on it; `handler` is the callback that an operation ends in; `Step` is the completion
--   of any operation under way, with the whole of its handler: the handlers of a connection run
--   one after another, as where one thread runs the service, while the server gives the service
--   several threads, whose handlers can overlap (two calls of Shutdown that do are in
--   Web.Closing). Web.Counted, Web.Closing and Web.Accept prove what becomes of connections.
-- - FiberWeb: fiber_http_server.h and fiber_http_server.cpp. `perform` is an operation of
--   `FiberConContext`, over a function that answers the calls of its stream; FiberWeb.Orderly has
--   the order of these calls.
-- - Operation: what `operation` of iocp_operation.h holds.
-- - Impls: `construct` and `destory`, the same in epoll_service.cpp and iocp_service.cpp, on the
--   addresses of the sockets and files; Impls.Linked and Impls.Refine prove that the pointers
--   make a list.
-- - Service: epoll_service.h and epoll_service.cpp, the queue (`my_semaphore`) and the count of
--   outstanding work. Service.Events is what `do_one` does with the events of sockets,
--   Service.Loop is `do_one` and `run`; a turn of their loop takes a `Round`, which says what
--   epoll_wait answers and what other threads do. Service.Balance, Service.Balance.Loop,
--   Service.Drain and Service.NullWrite prove what they leave behind. The count is compared
--   modulo 2^64 in Service.Balance.Loop, where `Counts n` says that `n` operations are being
--   completed, `Keeps` what the steps of other threads keep, and a relation `May` how they change
--   `n`.
-- - Service.Register: `begin_recv` and `begin_send` of epoll_socket.cpp.
--
-- Bounds and fuel. The rounds of a transfer take fuel: each round but the last moves a byte at
-- least, so that len + 1 rounds are enough for len bytes. The loop of `build_kmp_table` takes 2 *
-- length of the word, since each turn advances in the word or shortens the border; the loop of
-- `find_eol` takes 2 * length of the text + 1, since each turn advances in the text or moves the
-- place where the word starts. Lengths of transfers are below 2^63, as `read` and `write` of
-- POSIX want. The loop of `io_operation` takes more fuel than there are bytes of input, since
-- each turn that does not end it hands a byte at least to OpenSSL. `ref_` of a connection and the
-- `int` positions of the search are numbers without a bound.
--
-- `do_one` makes a turn for each round of a list; for a handler that is queued one idle round is
-- enough, so that `run` returns after one call of `do_one` for each handler and one more.
--
-- Not modelled: http_parser and stdint.h, which are copies of other libraries; the Windows calls
-- that complete at once, accept_op and connect_op on Windows, and its files but the reading of
-- lines; connecting, contexts and certificates of SSL, the fibers over files and HTTP, and the
-- resolver; OpenSSL, pthread and the kernel; messages of errors.
pub mod Base
pub mod Errors
pub mod Buffer
pub mod Posix
pub mod Operation
pub mod Impls
pub mod Service
pub mod File
pub mod Socket
pub mod Ssl
pub mod Http
pub mod Iocp
pub mod Fiber
pub mod Web
pub mod FiberWeb
