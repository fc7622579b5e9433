-- ===== src/Lib.antt =====
-- The channel server of a two-player game: verification of its own code.
--
-- The program, under smilegate/project/GameChannelServer/: clients connect over TCP, log in with a
-- token that Redis knows, keep a list of friends in MySQL, and ask to be matched, by rating or
-- with a friend. A matched pair is told the key of a room and disconnects. The parts, and the
-- files that model them:
--
-- * protocol.h and the enumerations of channel_protobuf.pb.h: Protocol.antt (`incoding`,
--   `incode_message`, the header), Protocol/Status.antt (`session_status`) and
--   Protocol/Messages.antt (the messages with the fields that the server uses).
-- * server_session.h and server_session.cpp: Session.antt (the setters, `wait_send`,
--   `handle_write`, `init`, `control_timer_rematch`) and Session/Receive.antt (the loop of
--   `handle_receive`). The object itself is the record Session of World.antt.
-- * match_manager.h and match_manager.cpp: Match.antt (one function per method; `relay` and its
--   two helpers are the body of `process_matching_with_friends`), Match/Rating.antt
--   (`check_rating`) and Match/RoomKey.antt (`generate_room_key` and the loop that draws a key).
--   Match/Pairs.antt has any number of requests, one after another.
--   Match/Threads.antt has the calls of any number of threads, in sections between which the calls
--   on other queues go on, with the mutex of each queue; Match/Threads/Serial.antt compares them with
--   the calls that run alone.
-- * friends_manager.h and friends_manager.cpp: Friends.antt (one function per method; the
--   functions `join_...` are the branches of `lobby_login_process`).
-- * db_connector.h and db_connector.cpp: Db.antt (the pool of connections and the queries) and
--   Db/Query.antt (the texts of the queries, the array `query`, the rows).
-- * channel_server.h and channel_server.cpp: Server.antt (accepting, closing, the dispatch of
--   packets; `close_status` and `give_back` are the two halves of `close_session`) and
--   Server/Config.antt (the commands of `process_config`). Server/Reachable.antt has the relation
--   of the server's steps, Server/Turns.antt the abstract server that the steps are compared with,
--   Server/Lifecycle.antt with its children compares them for the handlers of each part, and
--   Server/Flow.antt follows the numbers of the sessions, the count of connections, the free database
--   connections (Db/Pool.antt, as a multiset) and the players who wait (Match/Waiters.antt) through
--   the calls. Server/Reads.antt is about whole reads, Server/Racing.antt about two logins at once,
--   Server/Playing.antt about a whole game, and Server/Stale.antt about a request whose connection
--   has ended.
-- * config.h and config.cpp: Config.antt. server_main.cpp, the constructors that it runs, and
--   log_manager.h and log_manager.cpp: Start.antt.
-- * smilegate/test_client/channel_server_test_client/channel_server_test_client/ (client.h,
--   client.cpp, protocol.h, client_main.cpp): Client.antt (the record Client and its methods),
--   Client/Messages.antt, Client/Matching.antt (`check_rating`), Client/Menu.antt (the menu)
--   and Client/Loop.antt (the loop around it, with what the thread of the io_service does before each
--   command).
--
-- The state of all objects of the server together is the record World of World.antt: the table of
-- sessions as a function from numbers, the queue of free numbers, the map from names to sessions
-- as an association list, the matching queues, the queue and the pool of connections, and the
-- states of Redis and MySQL. A pointer to a session is its number. A handler is a function from
-- the state to a `Result`, which is the new state or the fault that stops the program: a null
-- pointer, a buffer that overflows, an index out of range, a deadlock, a loop without an end, an
-- exception that nothing catches, a variable that is read before it is set. The handlers call each
-- other as in the program: `process_packet` calls Match and Friends, Friends calls Db, all of them
-- call `wait_send` of a session, and `handle_receive` calls `process_packet`.
--
-- What the server calls and the repository does not hold is the record External of World.antt, a
-- parameter: Redis (redis_connector.h), the MySQL client, the generator of uuids, the generated
-- serialisers and parsers, and `atoi`. For the client it is the record Generated of Client.antt, and
-- for the configuration the record JsonSpirit of Config.antt: the library json_spirit and the file.
-- Nothing is assumed of them except where a theorem says so: that one of the next room keys is not
-- in Redis, that a token is known. What the start meets, ports and fresh memory, is the record Host of
-- Start.antt.
--
-- Bounds and fuel. The loop of `handle_receive` runs on fuel, the number of bytes at hand plus
-- one, which is enough because each round consumes a header of eight bytes, unless the 32-bit sum
-- of sizes wraps round. The draw of a room key runs on a number of attempts that the theorems
-- take from the hypothesis about Redis. `decimal` writes ten digits, enough for an `int`. The
-- sizes in headers are taken modulo 2 ^ 32, and bytes lie in memory with the low one first. An
-- `int` that counts is an unbounded integer.
--
-- Not modelled: the interleaving of threads inside a handler (a handler runs to its end, and of
-- the mutexes only session_queue_mtx, which a handler can lock twice, is in the state), except for
-- two logins in Server/Racing.antt and the requests and timers of match_manager in Match/Threads.antt,
-- where a call is two sections and the status of a timer's session is looked at under the mutex;
-- memory that is freed; what is written to the log; the acceptor, of which only its opening is
-- modelled, and the io_service, whose events are the steps; the generated code; redispp.h and redispp.cpp, a
-- copy of a library; what the client prints, and what its second thread does within a command. A step
-- that is a packet is one round of the read loop, in a session of any status; the predicates NotStray
-- and NoneStray of Server/Reachable.antt say that the session is not in WAIT. The loop hands a packet
-- on in WAIT behind one that closed the session, for example behind a confirmation in the same read,
-- and Server/Confirming.antt treats what then happens. Server/Reads.antt puts the rounds of a read
-- together.
pub mod Base
pub mod Protocol
pub mod World
pub mod Config
pub mod Session
pub mod Match
pub mod Db
pub mod Friends
pub mod Server
pub mod Start
pub mod Client
pub mod Tests
