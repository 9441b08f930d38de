-- ===== src/Lib.antt =====
-- A model of a small HTTP file server in C, with theorems about it. A main process accepts
-- connections and hands each to a pool of child processes; a child reads the request, parses it,
-- looks the file up and answers.
--
-- The parts, with the code that they model:
-- - CString: the functions of the C library on strings that the code uses (strtok, strspn,
--   strstr, strrchr, strcasecmp, isspace, the decimal conversion), as the C standard describes
--   them.
-- - Request (inc/http_types.h): the request structure, analasy, which parses a request text, and
--   readline_buf. Request.Print has the independent description of a request text.
-- - Tcp (inc/http_types.h): the connection object, its context, and the callback that reads a
--   request with onRecv and runs the parser on what the buffer holds.
-- - Io (http_module/http_module.h, utils/rio_r_w.h, inc/sock.h): the loops around read, recv,
--   write and send: http_rcv, http_send, readline, rio_read, rio_write, Read_s and Write_s.
-- - Accept (http_module/http_module.h): accept_request, which turns a method and a URL into a
--   path and a status, and its other callers http_module_handler_request and geterror_type.
-- - Page (http_module/http_module.h): response_ok with the log entries that it makes, and the
--   error pages. Page.Endless is about files whose reading fails.
-- - Handler (http_module/http_module.h): http_module_handler_response, which composes Accept and
--   Page. Of response_ok it keeps the answer and the faults, and drops the text of the log; whether
--   the log opens is fixed for a run. Handler.Reply has an independent description of the answer to
--   each request, and Handler.Escape is about URLs that climb out of the directory of the server.
-- - Pool (inc/http_task.h): the pool of child processes, over the interface Pool.SList of the
--   singly linked list, which lists fill. Pool.Staff has what the main process does to the pool
--   as a step relation, Pool.Balance the choice of children for one client after another, and
--   Pool.Loads the pool without its order and its list.
-- - Child (inc/http_task.h): jump_task_pool_obj, the loop of a child over the events of epoll,
--   which composes Sock, Tcp and Handler. Child.Steps describes its events one by one,
--   Child.Session follows one client from its registration to its answer, Child.Visits one
--   client after the other against a description of the whole child, Child.Downloads those that
--   ask for files, and Child.Typed and Child.Kinds have the states that it can reach and what
--   the pointers lead to that it registers. Child.Newest has the events between two clients,
--   Child.Wires what goes out on each descriptor, Child.Leak the descriptors that it closes,
--   Child.Crash the requests that end it, and Child.Stuck what a request for a directory does.
-- - Sock (inc/sock.h): the calls that open sockets, with the descriptors that they leave open,
--   and the two calls that pass a descriptor from the main process to a child.
-- - Common (inc/common.h): the calls that end the process on a failure, and the redirections;
--   Common.Skip has skip.
-- - Serve (src/core/epoll_circle.h): start, which composes Pool and Sock, and its loops, which
--   accept clients and pass them to the children, and the signal handlers. Serve.Started follows
--   it from its first call on, Serve.Handover composes it with Sock and Child, and
--   Serve.Answered with Child.Visits.
-- - Config (utils/utils.h): the configuration file with the address to listen on, line by line as
--   fgets reads it, and checked calls. Config.Fuel is about its loop.
-- - Epoll (inc/http_io_base.h, inc/epoll_inc.h, inc/http_epoll.h, and pthread_handler of
--   inc/http_task.h): an event loop that runs in a thread, which composes Accept, Sock and
--   Config. The server does not start it.
-- - Queue (inc/http_ipc.h): the message queues, over an interface for the queues of the kernel.
--   The server does not use them.
-- - ErrorPage (http_module/http_module.h, utils/utils.h): http_module_error with
--   get_current_time.
-- - Log (inc/log.h): log_err and logOut, which response_ok calls behind a download.
--   Log.Downloads follows the entries of one download after another.
-- - Diagnostics (inc/unix_error.h, inc/http_error.h, and macros of inc/common.h, inc/http_ipc.h
--   and utils/utils.h): what is written when a call fails, and the status that the process ends
--   with.
-- Tests holds runs at concrete inputs.
--
-- Outcomes. A call gives a value, an access out of bounds, an access through a null pointer, the
-- end of the process, or waits for the kernel (Base.Outcome). A C string is the list of its
-- bytes in front of the zero; a char array that the code does not initialise is a
-- parameter, and so is what malloc leaves in the buffer of a connection. int
-- and size_t are numbers, and where the code converts between them the conversion is written out
-- (Base.Int).
--
-- The kernel. A descriptor is the list of the answers that the kernel will give to the calls on
-- it. The loops recur on that list, so no fuel is needed; where the list runs out the call
-- waits. What a call does beyond its result, such as epoll_ctl, is recorded in the state of the
-- component. The kernel between two processes, and its message queues, are records of operations
-- with the behaviour that their manual pages document.
--
-- Fuel. The loop of analasy takes one unit a round and each round consumes a byte, so it has one
-- more than the bytes of the text; the loop of response_ok has one more than the bytes of the
-- file, which is enough unless the reading fails: then no fuel is, since the loop does not end.
-- That no run of either is cut off by its fuel is part of the theorems on analasy and on the
-- download. The loop of skip has one more than the bytes of the array, and those of
-- http_module_error and of file_param one more than the bytes of the file.
--
-- Not modelled: prints that only trace the run, and the FreeBSD macros in inc/list.h and
-- utils/tree.h, which are another project's: the pool uses the singly linked list through an
-- interface, and nothing uses the trees. The files that only include, declare or give names to
-- types have no behaviour, and sig_handler_child has an empty body. Freeaddrinfo, and Add_event,
-- Modify_event and Delete_event of inc/http_epoll.h, only pass their arguments on.
pub mod Base
pub mod CString
pub mod Request
pub mod Io
pub mod Tcp
pub mod Accept
pub mod Page
pub mod Handler
pub mod Pool
pub mod Common
pub mod Diagnostics
pub mod Sock
pub mod Child
pub mod Serve
pub mod Epoll
pub mod Queue
pub mod ErrorPage
pub mod Log
pub mod Config
mod Tests
