-- ===== src/Lib.antt =====
-- Verification of CN, a collection of network programs in C: error detection, packet building, servers
-- that divide their clients among themselves, and a remote file system.
--
-- The programs share no code but copies of small functions (`error_func`, `send_file_descriptor`,
-- `recv_file_descriptor`); they interact through sockets, pipes, signals and passed descriptors. Each
-- program is a module here:
--   Base      shared helpers: tests, lists as arrays, integers, exclusive or.
--   Crc       errcorrection/crc1.c, both halves of `main`: `send`, `receive`, and the loop `divide` of each;
--             errcorrection/crc.c (Keyed).
--   Hamming   errcorrection/hamming.cpp: `encode` is the first half of `main`, up to the bits that are sent.
--   Heap      mid/heap.c: Init, Insert, DeleteMin and `main`.
--   Checksum  tcp_injection/TCP-Packet-Injection.c, ComputeChecksum.
--   Packet    the same file, the headers, the TCP checksum, the assembly, and `main`.
--   Raw       rawsockets/basic/client.c and server.c: csum, the headers, and what is sent.
--   Sniffer   rawsockets/basic/newclient.c: ProcessPacket and what it prints of the packets of the others.
--   OnDemand  mid/tss/server.c, which starts service1.c, service2.c and service3.c for its clients.
--   Dispatch  multiserver/multiserver.c and s1.c, from the text of a request to that of the answer.
--   Allot     select_servers/multiserver/mainserver.c, which hands out servers of two kinds.
--   Inetd     mid/inetd/server.c and mid/superserver/server.c, with the descriptors of parent and children.
--   SelectServer, Conserver  end/selectserver/mainserver.c, with the tables of Inetd, and end/conserver/server.c.
--   Logs      select_servers/logserver, logserver.c and server.c.
--   Ftp       ftp/passive and ftp/active: a file that is sent word by word.
--   Sums      rpc/arraysum, rpc/square and the add programs of end/rpc.
--   Raw1      rawsockets/raw1, server.c and client.c.
--   Readers   allinone, exam/5/allinone, exam/3, selectservers/allinone, and logserver with both its programs.
--   Decimal   `sprintf` with "%d", which several of them use, against `atoi` of Nfs/Text.
--   Udp       mid/udp, server.c and client.c.
--   Unix      unixsockets and mid/multithreaded: Startup (the beginning of `main`), FdPass (passing of
--             descriptors), Relay (csemulti: c.c, s.c, e.c and tc.c), Failover (bs: server.c and
--             backserver.c), Spawn (the threads of mid/multithreaded/server.c), Services
--             (tss: mainserver.c and server.c).
--   Studio    c137261@nitwstudios: script, director, actor, studio, act, set and producer; descriptors
--             travel from the director to the producer by the functions of Unix/FdPass.
--   Nfs       rpc/nfs: nfs_client.c (Client) and nfs_server.c (Server).
--   Linked    list_client.c and list_server.c, with list.x, at the top.
--   Printing  unixsockets/printserver/server1.c.
--   Railway   rawsockets/trainmain/sm.c, and exam/4: sm.c, and (Trains) t.c and p.c.
--   Chat      chatserver/server.c and select_servers/chatserver/server.c: what is written to whom.
--   Registry  mid/mss/server.c, and (Services) its services and clients.
--   ServiceSelect  mid/ss/server.c.
--   Pool      select_servers/serviceserver: mainserver.c, and (Client) client.c and server.c.
-- A file beside a folder has the data and the operations, with the functions' names in this spelling; the
-- folder has what is proved about them, and Tests has runs on concrete values. A program's state is a
-- record, its arrays are lists (a write or read out of bounds is a result of its own, `none` or
-- `overrun`, and never a value), an endless loop over clients is a function on the list of what
-- comes, and the replies of system calls are arguments. A handler of Nfs/Server is a tree of system
-- calls, run on a list of replies.
--
-- Loops on fuel: `new_frame`, with `2 * m + 2` rounds, since a mark is followed by a datum from position 3
-- on; `position_of_1`, with as many rounds as the position; `Heap.sift_up` and `Heap.sift_down`, with one round per cell of the heap (`q.size + 2`
-- and `q.size + 1` rounds in `Heap.main`), since every round at least halves or doubles the index; and
-- `Checksum.fold_all`, with four rounds, since the sum that it folds has at most 32 bits. `Linked.walk` and
-- `add_nodes` have as many rounds as there are nodes, since the addresses along a list ascend.
-- The sums that Sums, Linked and Dispatch add up in an `int` have no result out of its range. Elsewhere an integer is
-- taken not to overflow: `int` counters of clients, the numbers that `atoi` and perm_bit read. The digits of the CRC programs are non-negative. A `long` has 64
-- bits in Checksum, and 32 or 64 in Packet.
--
-- Not modelled: texts printed for the user, the contents of the greetings, `sleep`, the shared memory that
-- holds process ids, and the raw sockets over which broadcasts are made; stubs generated by rpcgen; copies
-- of a program in another folder; and the programs that only call the system in a row (echo servers,
-- the other raw socket programs). Of nfs_getattr only the permissions are modelled: the rest of its text
-- is formatted into the buffer that the names of the user and the group lie in. exam/5/server.c does not
-- compile. The other select servers are outside this library.
pub mod Base
pub mod Crc
pub mod Heap
pub mod Checksum
pub mod Packet
pub mod Unix
pub mod Studio
pub mod Nfs
pub mod Railway
pub mod Chat
pub mod Registry
pub mod Pool
pub mod Hamming
pub mod Raw
pub mod Sniffer
pub mod Decimal
pub mod OnDemand
pub mod Dispatch
pub mod Allot
pub mod Inetd
pub mod SelectServer
pub mod Conserver
pub mod Logs
pub mod Ftp
pub mod Sums
pub mod Readers
pub mod Linked
pub mod Concurrent
pub mod ServiceSelect
pub mod Raw1
pub mod Printing
pub mod Udp
