-- ===== src/Lib.antt =====
-- Jerry, a network library in C++: an event loop over epoll, TCP connections with buffers, the HTTP
-- and WebSocket protocols on top of them, and a logger that writes in the background.
--
-- How the parts interact: an IOWorker waits in its Poller, and calls the handlers of each Channel that
-- has events. The Channel of a TcpConn calls the connection back, which reads from the socket into its
-- receive buffer, or writes from its send buffer to the socket, and calls the user. The servers for HTTP
-- and WebSocket decode requests from the receive buffer and send their answers through the connection.
--
-- Which file models which part (paths from the root of the repository):
--   Base              lists, bytes and results that the parts share; no code of the program
--   Buffer            src/net/BaseBuffer.h, BaseBuffer.cc: `Buffer` and its operations; Buffer/Socket has
--                     ReadBytesFromFd, WriteBytesToFd, ReadBytesFromSsl and WriteBytesToSsl
--   Channel           src/net/Channel.h, Channel.cc, and the epoll_ctl calls of src/net/Poller.cc
--   Conn              src/net/TcpConn.h, TcpConn.cc: `send`, `shutdown`, `force_close`, the handlers
--                     `on_channel_readable`, `on_channel_writable`, `on_channel_close`; `open_conn` is
--                     the set-up in src/net/Acceptor.cc; Conn/Context has TcpContext
--   Http              src/proto/http: Http/Req and Http/Headers for HttpReq, Http/Decoder for
--                     HttpReqDecoder, Http/Resp for HttpResp
--   Ws                src/proto/ws: Ws/Frame for the frame format and EncodeFrameHead, Ws/Codec for
--                     WebsocketCodec; Ws/Handshake has the theorems on the upgrade
--   Logger            src/logger/AsyncFileAppender.h, AsyncFileAppender.cc; Logger/Log has
--                     src/logger/Logger.h, Logger.cc
--   Utils             SetTimerFd of src/utils/FdHelper.cc; Utils/DateTime has src/utils/DateTime.cc and
--                     Utils/Latch src/utils/CountDownLatch.cc
--   Timer             src/net/TimerQueue.h, TimerQueue.cc: `add_timer`, `cancel_timer`, `on_timeout`
--   Pool              src/net/ThreadPool.h, ThreadPool.cc: the tasks under the mutex; Pool/Workers has
--                     RunInThread and Stop, with the mutex and the condition variable
--   Worker            src/net/IOWorker.cc, `Poll` of src/net/Poller.cc, OnPeerConnect of src/net/Acceptor.cc,
--                     TcpConnSet of src/net/TcpConn.cc, src/net/TcpRateLimiter.cc; Worker/Descriptors has
--                     OnPeerConnect where the process runs out of descriptors
--   Server            the callbacks of src/net/TcpServer.cc; Server/Http has src/proto/http/HttpServer.cc,
--                     Server/Ws has src/proto/ws/WebsocketServer.cc; Server/Lifetime has `Serve` after the start
--                     and `Stop` of src/net/WorkerGroup.cc and src/net/IOWorker.cc, thread by thread
--   Startup           the constructors of src/net/IOWorker.cc, Poller.cc, Acceptor.cc, Socket.cc and
--                     TimerQueue.cc and `Start` of src/net/WorkerGroup.cc, as the system calls that they
--                     make; Startup/Address has src/net/InetAddress.cc
--   Demo              `OnRequest` of examples/DemoHttpServer.cc
-- Modules below these hold the theorems, and each Tests module applies them to small inputs.
--
-- How the model corresponds to the code: an object is a record with the members that its methods read;
-- a method is a function from the object (and the results of the system calls that it makes, given as
-- functions or values) to the object after it. Bytes are numbers, iterators offsets into the vector.
-- Undefined behaviour, a failed assertion and an exception that nothing catches are values of `Fault`.
-- CMakeLists.txt builds with NDEBUG, where nothing is asserted: Startup has both kinds of build, and the
-- other models are those of a build with assertions.
-- Handlers of one connection run one after another in the thread of its IOWorker, so a run is a list of
-- events in any order. The steps of the logger are its critical sections, in any interleaving, and so
-- are those of the thread pool, whose workers may also wake spuriously; the loop in which they discard
-- tasks has no mutex, and Pool/Discards takes its statements apart. A run of the timers is a list of calls
-- and timeouts; the tasks that a timeout calls take time and may call the queue again.
--
-- Bounds and fuel: sizes are taken to stay below 2 ^ 64, as the memory of a process does, and bytes are
-- below 256 where masking needs it. `drop_bytes_until` has fuel for every position of the vector and
-- one more. `parse_headers` has one round for each unread byte and one more, where a line takes three
-- bytes. The two decoders have one round for each of their states. `decimal` has fuel for more digits
-- than a number has.
--
-- Not modelled: sockets, OpenSSL and other system calls, whose results are arguments; the copies of
-- SHA-1, MD5 and Base64 in 3rdparty, which are parameters of the WebSocket codec; the
-- configuration; the broken-down time of `gmtime_r`, an argument; the other examples and the tests.
pub mod Base
pub mod Buffer
pub mod Channel
pub mod Conn
pub mod Http
pub mod Ws
pub mod Logger
pub mod Utils
pub mod Timer
pub mod Pool
pub mod Worker
pub mod Server
pub mod Demo
pub mod Startup
