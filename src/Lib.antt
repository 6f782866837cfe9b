-- ===== src/Lib.antt =====
-- friend_serv: the friend and feed relation service, its service groups and its network server.
--
-- The program has these parts.
--   async-server/        the network server: a process that holds the connections, which cuts the streams of
--                        its clients into packages, and worker processes that a plugin runs in. A channel
--                        for each worker carries the packages between them through shared memory.
--   async-proxy/         the plugin: each package of a client is a request on friends or feeds, which is
--                        turned into commands to redis, and the replies into the answer.
--   common/              service groups: a group of replicas of services, each an element of a tree
--                        whose flags say what can be used, and strategies that choose among them; a
--                        service sends through a blocking or an asynchronous socket, and disables its
--                        element when the socket is lost.
--
-- Which file models which part:
--   Base, Base/*         names, tests, lists and 32-bit words that all share.
--   Element              `Element` of common/strategy.cpp. The pointers of all elements are a `Tree`,
--                        the flags a function from elements to Bool. `enable`, `after_enable`,
--                        `disable`, `after_disable` are Enable, AfterEnable, Disable, AfterDisable;
--                        `add_child` is AddChild. Fuel: two units for each level of the tree are used,
--                        so `2 * rank + 2` is enough, which the theorems on `enable` and `disable` show.
--   Element/Consistency  the tree invariant; Enable, Disable, Adopt: what each operation does to it.
--   Strategy             the four strategies of common/strategy.cpp; Roll, Region: their laws.
--
--   Shmq                 async-server/src/shmq.cpp: `shmq_push` and `shmq_pull` on the ring's bytes. A memcpy
--                        writes a list of bytes into a function from addresses; every `uint32_t` sum wraps.
--                        The theorems ask for a ring of at most 2^31 bytes, so that no sum does.
--   Shmq/Memory, Place, Twice, Append    windows of the ring and what one or two writes do to them.
--   Shmq/Header, Positions               the 16 bytes of a header; free and used bytes.
--   Shmq/Fifo, Oldest, Trip              the ring as a queue of blocks: push, pull, and both.
--   Channel              the ring with the list of deferred blocks: `recv_push`, `recv_pull`, `pruge_recv`
--                        and their `send_` twins. malloc and realloc are parameters; the pipe is the
--                        count of bytes written to it. Each call is one step: the interleaving inside a
--                        call of the two processes that share the ring is not modelled.
--   Channel/Purge, Push, Order           what a channel owes its reader, and runs of calls.
--
--   Proxy/Redis, Packet  async-proxy/src/redis_command.h, proto.h and the helpers of buf_processor.cpp. hiredis
--                        is a pipeline of commands, and the server a function that answers them or
--                        loses the connection; replies that are not freed are counted.
--   Proxy/Attention, Query   the handlers of async-proxy/src/buf_processor.cpp. `none` is memory used out of bounds.
--                        The clock, uninitialised memory and missing arguments are parameters.
--   Proxy/Dispatch       `ProcPkgCli` of async-proxy/src/proxy.cpp, from the bytes of a request on.
--                        `RedisMasterInfo`, which is not in the repository, is a parameter.
--   Proxy/Replies, Ends, Answers, Queries, Pipeline   replies read and freed, lengths of answers.
--   Proxy/Meaning, Decimal, Listing, Oddities  what single requests answer.
--
--   TcpClient            `Send` and `Recv` of common/tcp_client.cpp as loops over the answers that the kernel
--                        gives, in order; a run out of answers blocks. Sending, Receiving: their ends.
--   SyncService          `SyncService` of common/service.cpp; Exchange: a request and its answer; Life: the
--                        states that a service goes through, as a step relation.
--   AsyncService         `AsyncService` of common/service.cpp and service.h, with fd_service_map; Phases: its
--                        states; Nulls: the entries that operator[] adds.
--
--   Config               the configurations and `strategy_type` of common/service.h, service_replicas.h, service_group.h
--                        and strategy.h, with their comparisons; Equality: these decide equality.
--   Strategy/Chooser     CreateStrategy of common/service_group.cpp and the casts before a strategy is asked.
--   Level                what ServiceReplicas and ServiceGroup do alike: Init, Close and the calls, over
--                        children that are a parameter (`Parts`). A level owns its children, and its flag
--                        follows theirs (`noticed`). Reading a deleted element is none, or `faults`. Init
--                        is on a new object, as everywhere in the program: that AfterDisable is called on a
--                        closed group by replicas that fail their Init is left out.
--   Level/Sound, Steps, Fits, Setup, Failed, Teardown   what operations keep, when Init succeeds, what
--                        Close reads.
--   Level/Calls, Failover, Reaches, Recovery   which child a call goes to, and what calls one after the
--                        other come to.
--   Replicas, Group      common/service_replicas.cpp and service_group.cpp as instances; Replicas/Sync: over
--                        SyncService, each service with its own network.
--   Group/Whole, Used, Reach, Deleted    the group, its replicas and their services together.
--   Handler              common/proto_handler.cpp; Reload: what ReloadServiceGroup leaves.
--
--   AsyncLinker          `c_tcp_async_linker` of async-server/src/tcp_async_linker.cpp, on Linker and Linker/Input, with the
--                        connect that may be pending and the registration for EPOLLOUT, which may fail;
--                        Runs, Watched, Stalled: runs of calls, and the bytes that wait in them.
--   Socket               `c_tcp_socket` of async-server/src/tcp_socket.cpp, on Linker and Linker/Input, and the channels
--                        of all workers; Feeds: from the stream of a client to the channels.
--   Worker               `c_revent` of async-server/src/shm_revent.cpp, and net_send_cli and net_close_cli of net.cpp.
--                        The plugin is a function from its calls to what it calls; Refines, Serves: the
--                        worker over bytes is one over two queues; Addressed: whom its blocks are for.
--   Conn                 the handlers and ids of async-server/src/reactor.h and `c_sevent` of shm_sevent.cpp; Seats, Answers:
--                        what reaches one connection.
--   Channel/Drain        the loop of both events, which takes blocks until a pull fails, 1024 at most; so the
--                        number of rounds is the program's. Channel/Samples: channels for examples.
--
--   Linker               the sending half of `c_tcp_linker` of async-server/src/tcp_linker.cpp: the list of
--                        buffers, the kernel's answers as in TcpClient, malloc as a count of buffers; a link that
--                        handle_error or a false result ends is none. Rounds: one more than the bytes.
--   Linker/Input         `handle_input`; the plugin and realloc are parameters, and so is what a package changes
--                        (`W`), for tcp_linker.cpp its plugin, for tcp_socket.cpp the channels.
--   Linker/Spread, Sends, Order, Supply, Packets, Worlds   the order of the bytes sent, the buffers and rounds
--                        that are enough, the cut of those received, and what a package keeps.
--
--   Timer                the list of async-proxy/src/timer.cpp; Expiry: which events a check takes out.
--
--   Not modelled: hiredis (another project's library), the redis configuration, logs, files, process set-up
--   and the epoll loop (system calls). The
--   listening socket, the calls of net.cpp on server links and string helpers are outside of the model
--   too. Rounds and fuel are
--   named with each part above; theorems on them show that they are enough.
pub mod Base
pub mod Element
pub mod Strategy
pub mod Shmq
pub mod Channel
pub mod Proxy
pub mod TcpClient
pub mod SyncService
pub mod AsyncService
pub mod Linker
pub mod Timer
pub mod Config
pub mod Level
pub mod Replicas
pub mod Group
pub mod Handler
pub mod AsyncLinker
pub mod Worker
pub mod Conn
pub mod Socket
