-- ===== src/Lib.antt =====
-- A verification library for the gateway of DistributedIM, an instant messaging server in C++ under gateway/:
-- an epoll loop that speaks line-separated TCP and WebSocket with its clients and keeps users, queues of
-- offline messages and groups in Redis, so that several gateways can serve the same users.
--
-- The parts, and how they interact:
--   Codec      gateway/include/WebSocketCodec.h and gateway/src/WebSocketCodec.cpp. Codec/Encode has the frame
--              generation (appendFrameHeader, encodeText, encodeBinary, encodeClose, encodePong),
--              Codec/Parse the incremental parser: parse_basic, parse_extended, parse_mask_key and
--              parse_payload are the stages of tryParseFrame, which falls from one into the next;
--              Codec/Handshake has base64Encode and generateHandshakeResponse, Codec/Reassembly the
--              fragments. Codec/Decoding describes a frame by RFC 6455, independently of the code.
--   Ack        gateway/include/AckTracker.h and gateway/src/AckTracker.cpp: messages that wait for an ACK, by
--              message id, with their retries at 1, 2 and 4 seconds and the dead letters.
--   RateLimit  gateway/src/RateLimiter.cpp: the token bucket of each connection.
--   Priority   gateway/include/PriorityQueue.h and gateway/src/PriorityQueue.cpp: the queue between the handlers
--              and the sockets.
--   Redis      gateway/src/RedisClient.cpp: Redis/Users has the devices of the users, Redis/Queues the offline
--              messages, Redis/Store hashes, sets and counters. The Lua scripts are translated in Redis; Redis/Fifo
--              says what the server does with lists, and Redis/Kept is about the commands that leave them alone.
--   Group      gateway/src/GroupManager.cpp, over Redis/Store.
--   Server     gateway/include/Connection.h and gateway/src/EpollServer.cpp: Server has the state, Server/Send
--              what goes out (sendToClient, handleWrite, disconnectClient, sendToUser, broadcast), and
--              Server/Handlers the steps of the loop (handleAccept, tryWebSocketUpgrade, checkAckRetries,
--              the delivery of the queue, pushOfflineMessages, checkTimeouts), Server/Login performLogin, Server/Control
--              handleWsControlFrame and the order of the steps. It sends what Codec/Encode
--              packs, and owns the tracker, the queue and the Redis client.
--              Server/Read is the reading side: the loop over the lines, Read/Frames handleWsRead, Read/Loop
--              handleTcpRead and handleRead. Server/Dispatch is handleMessage with the table of registerHandlers, whose
--              handlers are in Server/Messages and Server/GroupMessages. Server/Events is the loop
--              with its rounds. Server/WellFormed, Server/Isolation, Server/Unauthorised,
--              Server/Unheard, Server/Closing, Server/Tracking, Read/Framing, Read/Total and Read/Closed are about what they do.
--   Json       gateway/src/JsonParser.cpp, over a parser that is a parameter.
--   Handler    gateway/src/MessageHandler.cpp: the table of the handlers, by message type.
--   Config     gateway/include/Config.h and gateway/src/Config.cpp: Config/Ini and Config/Document are the two formats,
--              Config/Load the choice between them and validateConfig, Config/Values the tests of single values.
--   Registry   gateway/src/GatewayRegistry.cpp: gateways that find each other in Redis; Registry/Discovery has the
--              operations.
--   Start      gateway/src/main.cpp: the command line and the port.
--   Common     helpers that the parts share: association lists for the maps, texts, decimal numbers, and bit
--              operations as arithmetic. Tests has runs and instances of the theorems.
--
-- State is passed explicitly. A byte string is a list of numbers, below 256 where a theorem needs it; a
-- `uint64_t` keeps its wrap-around in the parser; the clock is an argument. A map is an association list, and
-- its iteration goes along the list. The bucket counts millionths of a token at an integer rate, where the
-- source has a `double`. Hash map order, SHA1, the heap of `std::priority_queue`, the Redis server and the
-- system calls on sockets are parameters, as are the parser and printer of JSON and the arithmetic of `double`; the laws of the heap, of Redis lists and of `write` are those of their
-- documentation, as are those of epoll_ctl. What hiredis takes as `%s`, and a string made of a `char *`, ends at the first
-- zero byte: `c_str` in Redis. Descriptors, gateway ids and times are not negative.
--
-- What one event gives to read is a list of chunks and the reason why it stops. A connection that is used through a
-- reference is looked up at each use; a use behind its removal is an outcome of its own, `dangling`.
--
-- Fuel: the loop over `write` has one round for each byte, since a round that goes on takes a byte; the loops
-- over the message queue have one for each message, and `pop_messages` takes one more than the messages that
-- wait; the server leaves that bound to its caller. The loops over lines and frames have one round more than the
-- buffer has bytes, since a line and a frame take one at least. The server's own loop, which has no end, runs for the rounds it is given.
--
-- The model is of the build without E2E_ENABLED and AI_SERVICE_ENABLED. Not modelled: logging, audit, metrics,
-- end-to-end encryption (calls of libsodium), the AI client, the construction of the sockets, the thread of the heartbeats, and
-- the programs outside gateway/, which are I/O or other languages. Texts that are no UTF-8, on which the printer of
-- nlohmann::json throws, are left out.
pub mod Common
pub mod Codec
pub mod Ack
pub mod RateLimit
pub mod Priority
pub mod Redis
pub mod Group
pub mod Json
pub mod Handler
pub mod Config
pub mod Registry
pub mod Server
pub mod Start
pub mod Tests
