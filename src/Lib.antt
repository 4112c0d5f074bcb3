-- ===== src/Lib.antt =====
-- The chat cluster: several server nodes behind a load balancer, with MySQL for users and offline
-- messages, Redis for numbering messages and for passing them between nodes, and a client for the
-- terminal. Paths are those of the repository.
--
-- A message goes through these parts. A node takes it off its connection (Frame.Server), its handler
-- (Service) numbers it within its conversation (Conversation, Redis) and sends it in a frame (Frame)
-- to a connection of its own, through Redis to another node, or to the offline store (Database); the
-- recipient's client takes frames off the stream (Frame) and shows each conversation's messages in
-- the order of their numbers (Orderer).
--
-- Prelude       Library names passed on, native lists, bytes, integers of C++, tests into Bool.
-- Json          thirdparty/json.hpp belongs to another project and is a parameter: the record
--               `JsonLib` has the calls that the program makes and laws that the library documents;
--               Json.Sample is one library that meets them, for evaluation.
-- Conversation  include/conversation.hpp: `p2p`, `group`; Decimal is std::to_string of an int; Talks has
--               what the names stand for, with a quotient for the two users of a private chat.
-- Redis         src/server/redis/redis.cpp: the class `redis` with `connect`, `publish`,
--               `subscribe` and `unsubscribe` (`send_command`), `observer_channel_message`
--               (`observe`), `incrSeq`, `getSeq`, `localFallbackSeq`. What a call of hiredis returns
--               is an argument. Cluster has several nodes on one Redis server, which is a parameter
--               with the documented behaviour of INCR. Fallback has what follows from numbers that
--               were handed out without Redis.
-- Frame         The wire format, on both sides: `sendWithHeader`, `sendFrame` (`encode`), `recvFrame`
--               of src/client/main.cpp (`recv_frame`). Server is `onMessage` of
--               src/server/chatserver.cpp; the handlers are its parameter.
-- Orderer       include/conversation_orderer.hpp. Channel has one conversation's state and what
--               happens to it; Conversations has the whole class: `onMessage`, `tick`,
--               `onOfflineBatch`. Invariant, Keeps, History, Seen, Reorder and Expiry are about one
--               channel; Origin, Projection, Isolation and Session about the class.
-- Node          A process of the server: `main`'s arguments and `gracefulExit` of src/server/main.cpp,
--               the callbacks of src/server/chatserver.cpp and the start of ChatService, over the
--               events that muduo, the observer of Redis and a signal bring. Runs is about them.
-- Crypto        src/server/db/crypto.cpp: `safeEqual`, `hashPassword`, `makeSalt`. SHA256 and the
--               numbers drawn are arguments.
-- Effect        Programs on a state that may throw; what was done to the state before stays done. Keeps
--               is for relations that hold along their runs.
-- Database      src/server/muduo: the four models, method by method (Users has UserModel and
--               FriendModel, Groups and Offline the other two), over the record `Sql`, which stands
--               for the pool's connections and MySQL. Rows is std::stoi and the columns of a row;
--               Transactions has what MySQL documents of them as a record, over which
--               `createGroupWithCreator` is looked at.
-- Service       src/server/chatservice.cpp. The record `Machine` has `_userConnMap`, `_redis`,
--               everything outside and what was sent so far; `World` stands for MySQL, what Redis
--               replies and the connections. Chat has `onechat`, `groupchat` and
--               `handleredissubscribemessage`; Accounts has `reg`, `loginout`,
--               `clientCloseException`, `addfriend`, `creategroup`, `addgroup` and `reset`, and
--               Accounts.Login `login`; Sorting has `sortOfflineMessages`; Dispatch has the table
--               of handlers and `onConnection`. Delivery, Numbering, Members, GroupMessage, Sorted,
--               Table and Accounts.Guard are about these, and Evolves is about what becomes of the
--               state along the run of any handler.
-- Pool          src/server/db/connectionpool.cpp. The record `Pool` has `_connQueue`, `_connCount`
--               and the connections that shared_ptrs hold; `fill` is the constructor's loop, `produce`
--               and `scan` one round of the two threads, `get_connection` and `give_back` are
--               `getConnection` and the deleter of its shared_ptr. Steps has the step relation of
--               all threads; Queue, Invariant and Waiting are about it. Config is `loadConfig`.
-- Connection    src/server/db/connection.cpp: `executeUpdate` and `executeQuery`, over what each call
--               of the MySQL library answers.
-- Text          find, substr and getline as the sources use them; Integers is std::stoi and atoi.
-- Client        src/client/main.cpp. The record `Client` has the globals. Commands is `mainMenu` with
--               the commands, Login the requests and responses of `main`, Menu its loop, Receive
--               `readTaskHandler` and `renderChatMessage`, Clock `getCurrentTime`, Overview
--               `showCurrentUserData`. Object, Line, Lists, Welcome, Entry, Screen, Session, Sending,
--               Render, Chat and Announce are about these; Chat, Announce, Lists, Welcome,
--               Entry and Render join the client to the server.
-- EndToEnd      From the numbers that any nodes hand out (Redis) to what a client shows (Orderer).
--
-- Bounds and fuel: uint64_t wraps at 2^64, written out where the source adds; the theorems assume
-- numbers below the last one. `serve`, the loop of `onMessage`, has fuel: the length of the
-- buffer, since each frame takes five bytes or more. `digits` has as much fuel as the number it
-- prints. std::stoi is read for the range of a 32-bit int. The orderer's readings of the clock are
-- arguments, in nanoseconds, and not 0, which stands for no reading; one call has one reading, also
-- where `drainPending` takes another. The pool's are clock() ticks. Years of a struct tm before 1900
-- are left out, and std::stable_sort is an insertion sort that is stable.
-- The retries of `sendFrame` and of `getConnection` run over a list of what the calls gave.
--
-- Threads: each method of `redis`, of the orderer and of ChatService runs as one step. In the
-- source, mutexes see to it for `redis` and for `_userConnMap`, and the client calls the orderer
-- from the thread that logs in and then from the one that reads; the steps of the pool's threads
-- interleave in any order. That two handlers may interleave at their database calls is not
-- modelled: a callback of a node is one step.
--
-- Not modelled: what the client prints besides messages and lists, and how it connects; what of a message
-- is on the screen when an exception stops its printing; logging, which changes no state; the
-- event loop, hiredis and MySQL, which are libraries: when muduo reads from a connection that was
-- shut down, and when Redis passes a message on, is left open.
pub mod Prelude
pub mod Json
pub mod Node
pub mod Orderer
pub mod Conversation
pub mod Redis
pub mod Frame
pub mod Crypto
pub mod Text
pub mod Effect
pub mod Database
pub mod Service
pub mod Connection
pub mod Pool
pub mod Client
pub mod EndToEnd
