-- ===== src/Lib.antt =====
-- School meals: a client and a server by which pupils and parents read the menus of schools.
--
-- The client (client/) asks for an id, a password, an office and a school, sends requests of
-- fields with "//" between them, and shows the answers. The server (server/server.c) gives each
-- client a slot and a thread, reads a request with strtok, calls the database
-- (server/db_handler.c) or the meal service (server/neis_api.c), and sends one response.
--
-- Files:
-- - Base: numbers, Boolean tests, lists; the helpers that all files share.
-- - CString: strings as lists of bytes, and strtok, snprintf, strncpy, strcat of the C library.
-- - Protocol: the sizes of include/common.h, the constants of include/protocol.h, send_response
--   of server/server.c; Protocol.Requests the texts that client/handlers.c prints.
-- - Db: server/db_handler.c over an engine that is a parameter; Db.Tables the tables of init_db
--   and the effect of each statement, Db.Laws what SQLite documents of the statements,
--   Db.TableEngine an engine that satisfies it, Db.Refines the functions against the tables,
--   Db.WellFormed the invariant; Db.Schema init_db, Db.Children the list of a parent's
--   children.
-- - Server: the loop of handle_client of server/server.c. Request cuts the parameters, Account,
--   Child and Meal have the commands, Dispatch the chain of strcmp and the loop, Clients the
--   array client_sockets, Main the calls of main, Threads the commands as sequences of
--   statements that other threads come between, Threads.Race two threads in a given order of
--   their statements, Network the parts of server/network.c that do more than call Winsock,
--   Handlers server/server_handler.c, which nothing calls. Wire, Requests, OwnPeriod, Sessions,
--   Updates, Login, Frame and Invariant have the proofs.
-- - Neis: server/neis_api.c, over a record Web of libcurl and json-c. Menu makes the text of a
--   menu, Period counts days and joins days, Fetch has the queries, Curl the transfer that
--   collects the body of an answer.
-- - Calendar, Input: client/input_util.c, its checks and its prompts, and the calendar that
--   they are compared with.
-- - Client: client/network.c on the events of the sockets, client/handlers.c on the outcome of
--   an exchange, in Menu the choices of client/menu_general.c, in LoginMenu the login and the
--   registration of client/menu.c, in App the loop of client/client.c and in App.Start main
--   around it; Sent lists the requests that the menus send.
-- - System: clients and the server together, a round of a client being one step.
-- - Examples: concrete data, at which the hypotheses of the theorems hold.
--
-- State: the database is a value of the engine that each function takes and returns; a handler
-- returns Option (Db x texts that are sent), where none is behaviour that C leaves undefined: a
-- string with no terminator, a null pointer that is read, a write past a buffer. A response is
-- a list of bytes, cut as snprintf cuts it. Int values that the program prints or reads are in
-- range. The four global buffers of the client are the record Session. Sockets and typed lines
-- are lists of events; none there is a call that has not returned when they are used up. The
-- loops over strtok in Neis.Menu run on fuel, the length of the menu, which is enough because
-- each token takes a byte: Neis.Menu.Lines compares them with a recursion that has no fuel.
-- Numbers are printed with at most ten digits, which an int does not exceed.
--
-- Parameters: sqlite3 (Db.Engine, with the laws Db.Laws.Sqlite: what the prepared statements of
-- db_handler.c read and write on the schema of init_db, with foreign keys on, and that the text
-- of the INSERT without stray quotes inserts its row); libcurl and json-c (Neis.Web); in Server
-- the meal service as a whole (Neis.MealService), whose codes, where a theorem says so, are
-- short and have no quote.
--
-- Not modelled: the printing of client/, the numbers of scanf (a choice is a number that was
-- read), the files that no Makefile builds, menu_parent.c, which is one comment, encode_params
-- of neis_api.c, which nothing calls; get_children_callback, which nothing calls and which
-- computes a pointer outside of its array; and a thread that is still serving while main closes
-- the sockets. In Server.Dispatch a request is one step on the database; in Server.Threads each
-- statement is one. mktime is the calendar's count of days in a zone of one offset; the dates
-- given to it are texts of digits.
pub mod Base
pub mod CString
pub mod Protocol
pub mod Db
pub mod Neis
pub mod Server
pub mod Calendar
pub mod Input
pub mod Client
pub mod System
pub mod Examples
