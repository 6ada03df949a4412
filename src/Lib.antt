-- ===== src/Lib.antt =====
-- Verification library of tunm, a game server that runs its game logic in Lua.
--
-- The server's parts talk through a few shared objects. Sockets and timers belong to the event manager
-- (src/mgr/mio_event_mgr.rs); what arrives becomes an element of the Lua engine's list
-- (src/lua_engine.rs), which runs them one by one. Bytes are cut into messages by the length in their
-- head (src/net/net_msg.rs), and websockets (src/mgr/websocket_mgr.rs) share the table of sockets.
-- Work that waits for a database runs on threads (src/lua_custom/lua_db.rs) that take a connection
-- from the pool (src/db/db_pool.rs), use it through `DbTrait`, and hand a result to the Lua engine.
-- The telnet console (src/utils/telnet_utils.rs) is driven by its sockets and hands command lines to
-- the Lua engine. The evaluator of winning hands (src/game/majiang.rs) is a pure function called from
-- Lua. Failed statements are written to the log (src/utils/log_utils.rs).
--
-- Prelude: shared names. Lists and tests over the native numbers, `Outcome` (Prelude/Faults) for code
--   that may panic, hash maps as association lists (Prelude/Maps), integers (Prelude/Int), texts as
--   bytes (Prelude/Text), decimal numbers (Prelude/Decimal).
-- Lua: the engine. Convert is `LuaEngine::convert_excute_string`; Engine has the waiting elements and
--   everything that `LuaEngine::execute_lua` does with them, Order is about the order of the calls. The
--   Lua machine is a parameter.
-- Net: the network. Values is `NetError` of src/values.rs. Buffer has the buffer of the crate
--   tunm_proto, a parameter with its documented laws, and Sample one that keeps them. Msg is `NetMsg` of
--   src/net/net_msg.rs, with its head read and written in Msg/Laws, RoundTrip, Detail, Proto, Fields and
--   Checks about what is parsed again. Socket is `SocketEvent` of src/net/socket_event.rs, with its
--   names in Socket/Names and what it reads in Socket/Reading. Protocol is `ProtocolMgr` of src/mgr/protocol_mgr.rs and what scripts pack.
--   Scripts has the functions of src/lua_custom/lua_network.rs, and Scripts/Relay is about a gate that
--   hands messages on. Events has `MioEventMgr` of src/mgr/mio_event_mgr.rs and `WebSocketMgr` of
--   src/mgr/websocket_mgr.rs on one state, since they call each other: Close is about sending and
--   closing, Dispatch about bytes that become messages (whole or in pieces), Poll about the turns of the
--   event loop, Lost about what the scripts are told, and Peers about two servers that talk over a
--   websocket.
-- Telnet: the console. Client is `ClientInfo` and what the handlers share; Login is
--   `TelnetUtils::login`; Keys has one function per key of `TelnetUtils::update_data`, Editor is its
--   loop; Server is `TelnetUtils` with its table of clients and its callbacks. Invariant, KeySafety,
--   Safety and LoginSafety are about the invariant of a client and the absence of panics, Auth about who
--   is logged in, Registry about the table, Line about the lines executed, History about those
--   remembered. A write to a socket and a string handed to the Lua engine are effects, listed in order.
-- Majiang: the evaluator. Combine is `get_combine_list`; Hand has the small functions on hands; Left
--   is `check_left_vaild`; KingItems and Kings are `calc_ttt_combine`; Hu and Win are `check_can_hu`.
--   Flags and CombineLaws are about `get_combine_list`; KingLaws, KingBounds and KingMelds about the
--   kings.
-- Db: the databases. Trait is `DbTrait`; Sqlite and Mysql are the two connections; Pool is `DbPool`;
--   Thread has the bodies of the threads of src/lua_custom/lua_db.rs, Handler puts them together with
--   the pool. Runs and Failures are about transactions and batches, PoolLaws about the pool. Select has
--   `select` and `insert`, which write rows into a message: Select/Sqlite, Mysql and Pool are the
--   connections, Threads what src/lua_custom/lua_db.rs does with the message, Columns and Cells are
--   about the rows of the two, Message, Rows and MysqlRows follow the rows to the scripts, Handler puts them together with the
--   pool. Redis is `RedisPool` of src/db/redis_pool.rs with its threads, Redis/Commands and
--   Redis/Scripts what src/lua_custom/lua_db.rs does with it; Reader and Threads are about who reads a
--   subscription.
-- Http: `HttpMgr` of src/mgr/http_mgr.rs, with the requests that wait for a script's answer. Answers
--   compares them with a list of the requests as they came.
-- Utils: Rid is `get_rid` of src/lua_custom/lua_util.rs, which makes role ids; Rid/Decode reads them
--   back, Unique is about one call and Runs about any number.
-- Logs: the log files, src/utils/log_utils.rs. Names has the dates and the names of files, Writer the
--   state and the operations of `LogUtils`, Rolling is about where lines end up, Periods about when
--   files are rolled over and how they are named.
--
-- Numbers are unbounded, where the program uses usize, i32 and u8 for positions, counts and tiles that
-- stay far below their bounds; a subtraction below zero of an unsigned number is a panic, as in a
-- build that checks for overflow. The loop of `get_combine_list` has the fuel 2 ^ n, one unit for each
-- way to set n flags; each round makes the number that the flags write larger, so that it never runs
-- out. The loop of runs in `calc_ttt_combine` has the fuel of the tiles left and one more, and each
-- round takes two tiles at least. The runs of `check_can_hu` have the first count as fuel, which falls
-- by one in each round, and its triples of kings the number of kings, which falls by three. The search
-- for the name of a log file has the fuel that its readings give, and finds a name if a numbered one
-- within it is free. The loop over the messages of a socket has the bytes of its buffer and one more
-- as fuel, and each round takes a head at least. The other loops are over lists or count down.
--
-- Not modelled, and so parameters where the code uses them: the drivers of the databases and of redis,
-- the lossy conversion of bytes to text, the calendar, sockets and the poll (what a read gives, and
-- whether a socket is registered and let go of), the log files (how much of a write they take), the timer, the server of
-- websockets, the Lua machine with its stack, and the packages tunm_proto and td_rlua. The server and
-- the client of http, the files that scripts are loaded from and most bindings to Lua are not
-- modelled. What is not compiled, as src/mgr/http_mgr_old.rs, is left out.
pub mod Prelude
pub mod Lua
pub mod Telnet
pub mod Majiang
pub mod Db
pub mod Logs
pub mod Net
pub mod Utils
pub mod Http
