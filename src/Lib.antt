-- ===== src/Lib.antt =====
-- FastCFS: the file operations of the client library, the auth server and the vote server.
--
-- A client program works on files through src/api/fcfs_api_file.c. The content of a file is held
-- by faststore in blocks and slices, its entry with the size by fastdir; both are other
-- projects, whose calls are parameters here. The file operations cut a read or a write into
-- slices, one per block, and report the new size of a file to fastdir, at once or through the
-- queue of src/api/async_reporter.h, from which a thread sends the reports, merged. The vote
-- server (src/vote/server) lends a vote to groups of servers of the other services: a server
-- joins its group over a connection and may become its leader. The vote servers elect one of
-- them as their master. The auth server (src/auth/server) keeps users, storage pools and the
-- pools granted to users, as rows that a directory service stores and as objects in skiplists.
-- A client logs in and gets a session; the requests on it are checked against the privileges of
-- its user. Published sessions, and the changes of users, grants and quotas that bear on them,
-- are told to subscribers.
--
-- The files:
--   Base: shared names, Boolean tests, integers over the native numbers, and result codes.
--   File.Types, File.Services: src/api/fcfs_api_types.h and the calls of the two clients.
--   File.Write: `do_pwrite` and `fcfs_api_file_report_size_and_time`; Cover is the loop's
--     invariant, Size is about the cached size, Source about the position in the buffer.
--   File.Read: `do_pread` and `fcfs_api_read_ex`; Window, Hole and Round lead to Content.
--   File.Truncate: `do_truncate`, `do_allocate`, `file_truncate`.
--   File.Seek, File.Calls, File.Open: `fcfs_api_lseek`, `do_write`, `deal_open_flags`.
--   Report: src/api/async_reporter.c, from the queue to the batches that are sent (`merge_events`,
--     `deal_events`); Extent says what reports mean, Merging, Replay and Order are about merging and
--     sorting, Batch about the batches,
--     Sources about the reports that a write queues.
--   Auth.Dao: src/auth/server/db/dao. Auth.Users, Auth.Pools, Auth.Quota, Auth.Grants:
--     src/auth/server/db/auth_db.c over the objects and skiplists of Auth.Db and Auth.Backend.
--   Auth.Session: src/auth/common/server_session.c; Chain, Table, Lookup and Added lead to Map;
--     Owned is about the objects that they use, NewId about new ids, Clear about the end of a term as master.
--   Auth.Service: src/auth/server/service_handler.c; Guarded is about its check of privileges.
--   Auth.Subscribe: src/auth/server/session_subscribe.c; Replay says what a queue tells a
--     subscriber, Truth what it should, Mirror and Walk are about the single calls, Steps about
--     all in any order.
--   Vote.Groups: src/vote/server/service_group_htable.c. Vote.Service: src/vote/server/service_handler.c.
--   Vote.Election, Vote.Choice, Vote.Notify, Vote.Select, Vote.Inactive, Vote.Check:
--     src/vote/server/cluster_relationship.c, the election of a master among the vote servers
--     (`cluster_get_master`, `cluster_notify_master_changed`, `cluster_select_master`,
--     `master_check`).
--
-- A C function is a function from the state that it reads (the file, the services, the group) to
-- its result code and the state afterwards; an error code is a value of `Status`. Offsets, sizes
-- and the counts of bytes are natural numbers or integers without the bounds of `int` and
-- `int64_t`: the sums of the code stay below those for files of less than 2 ^ 63 bytes. A loop
-- runs on fuel, one round for each byte asked for and one more; that is enough since each round
-- stores, reads or frees at least one byte; the election runs on a round for each second of the
-- longest time to wait and one more. The theorems below state the result, not only what holds of
-- a result. `IsSlicing`, `IsWriter` and `Holds` are what the code relies on of faststore: the
-- slices of a range come one after another, a write stores no more than its slice and a
-- successful one something, and a read returns the bytes that the store holds.
--
-- The directory service and the skiplists of the auth server are `Backend` and `Skiplist`;
-- `IsSkiplist` says that a skiplist is a map, `IsAllocator` that a string is copied as it is. A
-- session's id is drawn from a list of draws, and a list that meets only ids in use gives none.
--
-- Memory that runs out is a parameter (`Memory`, `Net.malloc`, `room`, and the replies of
-- `Backend`). An allocator of sessions always gives a new object; Auth.Session.Owned shows that no
-- session refers to a freed one as long as none is replaced. Group ids are taken as not negative.
--
-- Left out: vectors (`readv`, `writev`), whose cursors are calls of another project; locks,
-- stat, links and directories, which pass on to fastdir; of the auth server, the loading and
-- the lists of its rows, the names of pools by a template, its cluster and its client; the
-- POSIX, preload, FUSE and Java layers. Concurrent requests on one group are taken one after
-- another.
pub mod Auth
pub mod Base
pub mod File
pub mod Report
pub mod Vote
