-- ===== src/Lib.antt =====
-- Youdge: a distributed cache (src/, include/) and a file-sharing server with its Qt client (Server/,
-- Client/).
--
-- The cache. A node holds cache groups; a group reads its LRU cache and fills it from a getter, at
-- most one load per key at a time; remote calls reach the groups; clients find the nodes in etcd and
-- choose one by consistent hashing. The file server. Sockets carry protocol data units, which the
-- receive loop of each side cuts from the stream and hands to a handler; the client's pages send the
-- requests, and its handlers show the replies.
--
-- Files and code:
-- Base: shared names; lists and strings of bytes, ℤ, std::unordered_map as an association list.
-- Lru: src/cache/lru.cpp and src/include/kcache/cache.h. `LruCache` has the fields of LRUCache;
--   list iterators are numbers of nodes, so a dangling one can be told, and following it is `none`.
--   Lru/History has any sequence of calls, Lru/Simulation the specification.
-- Ring: src/consistent_hash/consistent_hash.cpp and its header. `Ring` has the fields of
--   ConsistentHashMap; Ring/Crc32 is Crc32IEEE, Ring/Balance is CheckAndRebalance and
--   RebalanceNodes over any doubles.
-- Flight: src/include/kcache/singleflight.h, `Do` as a step relation between threads.
-- Group: src/group/group.cpp and src/include/kcache/group.h; Group/Rpc has the map of groups and
--   the handlers of src/server/server.cpp. It uses Lru.
-- Sdk: src/client/client_sdk.cpp, include/kcache/client.h and the key of
--   src/registry/registry.cpp. It uses Ring. The replies of etcd are arguments; gRPC is the
--   parameter `Network`, and `Remote` in Sdk/Broadcast is what its calls promise.
-- Registry: src/registry/registry.cpp, over etcd as the parameter `Etcd`; `KeepsKeys` in
--   Registry/Leases is what etcd promises, with the seconds that a lease has. Time passes where the
--   thread sleeps, and not in the calls.
-- Pdu: Server/protocol.h and Server/protocol.cpp, a PDU and its bytes.
-- Socket: Server/mytcpsocket.cpp, the receive loop over Pdu with any handler.
-- Users: Server/operatedb.cpp, over the SQL engine as the parameter `exec`.
-- Handlers: Server/msghandler.cpp, the socket list of Server/mytcpserver.cpp, and in Handlers/Files
--   the handlers of files and the dispatch of Server/mytcpsocket.cpp. It uses Pdu and Users. The
--   file system is the parameter `Disk`. Handlers/Connection has the dispatch in the receive
--   loop, Handlers/Sockets the connections as they come and go.
-- Desktop: Client/. `App` is the state of the singletons Client and Index and of their pages.
--   Desktop/Friends has the requests of client.cpp, friend.cpp, chat.cpp and onlineuser.cpp,
--   Desktop/Browser those of file.cpp, Desktop/Sharing that of sharefile.cpp, Desktop/Uploader the
--   thread of uploader.cpp, Desktop/Replies reshandler.cpp with the dispatch and the receive loop of
--   client.cpp. The other files of Desktop join the two sides. It uses Pdu, Socket and Handlers.
--
-- Bounds and fuel. Sizes of the cache are mathematical integers, as no history of calls fills 64
-- bits. Lengths of PDUs are 32-bit words with their wrap-around. `evict` has the length of the list
-- as fuel, and each round takes an entry away. `digits` has fuel above the number. `recv_loop` has
-- any fuel, and `none` says that it still runs; so has `upload_loop`, for which more than the length
-- of the file is enough. `copy_dir` has its depth as fuel.
--
-- Concurrency. A method under a mutex is one step. `Do` has every interleaving; the other parts run
-- one call at a time.
--
-- Memory. Where the source copies 32 bytes from a shorter string or from an `int`, what lies behind
-- it in memory is a parameter; a read that does not end at a zero byte is `none`. A write past the
-- end of an array of a PDU makes the array longer, so that the PDU is no frame.
--
-- Not modelled: logging, gRPC and etcd themselves, the timer of the balancer, TLS, the texts of the
-- SQL statements, the encoding of texts and the place markers of `QString::arg` in them, the reading
-- of the configuration files, and the look of the windows.
pub mod Base
pub mod Lru
pub mod Ring
pub mod Pdu
pub mod Socket
pub mod Users
pub mod Handlers
pub mod Group
pub mod Flight
pub mod Sdk
pub mod Registry
pub mod Desktop
