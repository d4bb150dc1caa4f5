-- ===== src/Lib.antt =====
-- Verification of the chat room server.
--
-- The program is a chat room over HTTP with two servers that share one database class. Each part
-- is a module named after it; paths are from the root of the repository.
--
-- * Db (src/db/database_manager.cpp): DatabaseManager. Db.Connection has the constructor, the tables
--   and the two ways to run SQL (executeQuery with sqlite3_exec, and the prepare, step, column
--   pattern of the reads); Db.Users, Db.Rooms and Db.Messages have one function per method, and
--   each method's SQL text as a function `..._query`. The state is the connection `db_`, which every
--   method passes on; the recursive mutex makes a method one step. Db.Writes, Db.Reads,
--   Db.Questions, Db.Listings, Db.Texts and Db.Injection are the proofs; Db.Store is an abstract
--   store, and Db.Traces compares the two.
-- * Http (src/http): HttpRequest with its parser (Http.Request), HttpResponse (Http.Response) and the
--   HttpServer (Http.Server), which reads one request, finds its handler and writes the response.
-- * Threaded (src/chatroom_server.cpp): the handlers of ChatroomServer, which answer with an
--   HttpResponse. Threaded.Racing has POST /register of several threads at once, whose calls of the
--   database come in any order.
-- * Threaded.Static and Threaded.Routes are its static files and its table of handlers, which
--   Http.Server looks up. Http.Printed, Http.Encode and Http.Reading are the client's side: what it
--   sends, and how it reads a response.
-- * Epoll (src/chatroom_server_epoll.cpp): the handlers of ChatroomServerEpoll, which answer with the
--   text of the body; Epoll.Http, Epoll.Static and Epoll.Routes are its parser, its files and its
--   routing. Epoll.Connections is the life of a connection: accept, the event that serves it, and
--   the deferred close, on the event loop of Reactor. Epoll.Runs has the states that events and
--   cleanups in any order can reach. Epoll.Loop is `EventLoop::loop` with `stop`; Epoll.Shutdown is
--   about its end. Epoll.Parsed, Epoll.Reading and Epoll.Exchange are about what a client sends and
--   gets.
-- * Reactor (src/reactor): Channel, Epoller and EventLoop. The kernel's interest list is part of
--   the state, and what `epoll_wait`, `accept` and `recv` return, and how much
--   `send` takes, is the input of a run; Reactor.Waiting has `wait` and the events of a round.
-- * Utils (src/utils): ThreadPool as steps of its workers, callers and destructor in any order, each
--   between two accesses to a mutex or a condition variable, with its proofs in child modules; Timer
--   as rounds of its thread at given clock readings, in Utils.Due, and as steps of the thread and
--   its waits, in Utils.Timer.Thread; and Logger with its streams, queue, files,
--   rotation and purge; its thread and the callers are steps in any order in Utils.Logger.Thread.
-- * Main (src/main.cpp): the arguments, the constructor of ChatroomServerEpoll, its loop with a
--   signal, and the exit code. Threaded.Lifecycle and Http.Listener have the construction, the
--   accept loop and the stop of the server with the thread pool; Http.Accepting counts its
--   connections, and Http.Stopping is about its end. Chat is `User` as JSON.
-- * Agreement compares the two servers route by route, its child Exchange over HTTP. Service says
--   what the handlers of the event loop do to the tables, and Service.Exchange and
--   Service.OverHttp what clients read.
--
-- Prelude has the shared helpers: `std::string` is a list of bytes, with decimal notation and
-- splitting; Table is `std::unordered_map` with string keys as an association list in the order
-- in which the program iterates over it. Platform is what the servers call and the repository does
-- not define: SQLite, the JSON library, the clock and the files; Platform.Sockets
-- has the results of the calls that open a socket. A handler is a function of the World
-- (the connection, and how often the clock was read) and ends with a value or an exception.
--
-- SQLite is the parameter `Sqlite` of Sql: opening, running a text, preparing a text and its rows.
-- Theorems that need more take the law `IsSqlite` of Sql.Laws, which says what the SQL texts of the
-- program mean when no argument has a quote or a NUL byte: a statement acts on the tables of
-- Sql.Tables as Sql.Statement says, a query returns the rows Sql.Statement says, and errors are
-- those of violated unique keys. Sql.Engine is a concrete engine with these laws, which reads the
-- texts back; it is what the examples under Tests run on.
--
-- Numbers: times and identifiers are natural numbers (no overflow of a 64-bit time is
-- modelled), SQL integers are signed, and the thread pool's counter wraps at 2^64. Loops are
-- structural recursion over the text, the list of results of a system call, or the schedule. Only
-- decimal notation runs on fuel, n + 1 for the number n, which is more than n has digits.
--
-- Not modelled: the registration of the signal handler, and a signal in the middle of a callback
-- (signals come between the callbacks of a round); `setNonBlocking`, whose result is ignored; the
-- futures of the thread pool; creation of the log directory and failures to
-- open a file; the web pages under static; and the copy of nlohmann/json.
pub mod Prelude
pub mod Sql
pub mod Platform
pub mod Table
pub mod Db
pub mod Http
pub mod Reactor
pub mod Utils
pub mod Threaded
pub mod Epoll
pub mod Agreement
pub mod Service
pub mod Main
pub mod Chat
pub mod Tests
