-- ===== src/Lib.antt =====
-- dingospeed: the cache files and the downloads of the caching proxy for model repositories.
--
-- A request for a range of a file is cut into tasks: ranges that are read from a cache file and
-- ranges that are fetched from a remote site or from another node. A fetched range is written to the
-- cache file block by block, and a bit mask in the header of that file says which blocks it has.
--
-- Base and its parts: shared tests on numbers, lists, outcomes and signed positions.
-- Errors: one constructor for each error message of the code.
-- Bitset: internal/downloader/bitset.go (NewBitset, Set, Clear, Test); Bitset/Bytes has the tables
-- for single bytes, Bitset/Laws the operations on the set of indexes.
-- Header: internal/downloader/file_header.go (NewDingCacheHeader, GetHeaderSize, Read, ValidHeader,
-- Write); Header/Codec has the little-endian numbers, Header/RoundTrip the laws.
-- Disk: seek, read, write and truncate of package os, as file.go uses them, on lists of bytes.
-- Block: GetBlockInfo of internal/downloader/file.go.
-- Cache: internal/downloader/file.go (NewDingCache, Open, Close, flushHeader, WriteBlock, Resize); a
-- method is a function of a world, the disk and the open cache. Cache/Sync has the agreement of the
-- header on the disk with the one in memory, Cache/Blocks what a block write does to the content,
-- Cache/Resize a change of the size.
-- Reader: ReadBlock, readBlockAndCache and getBlockKey of internal/downloader/file.go. The store of
-- blocks in memory is a library's: the interface BlockCache says where an entry may come from.
-- CacheRead: CacheFileTask.OutResult of internal/downloader/cache_task.go, as the list of chunks that
-- it sends.
-- Remote: RemoteFileTask.DoTask of internal/downloader/remote_task.go, on the chunks that arrive and
-- the way they end. Remote/Store has a single block, Remote/Steps one chunk, Remote/Finish what
-- follows the last chunk, Remote/Laws a whole run, Remote/Fetched one on what a fetch sends.
-- Download: FileDownload and the pool size of doTask of internal/dao/downloader_dao.go, and OutResult of
-- internal/downloader/remote_task.go. Download/Content has what tasks send, Download/Planned the way
-- from a request to what the client reads.
-- Stream: FileChunkGet of internal/dao/file_dao.go and ResponseStream of pkg/util/http_util.go, as
-- events; Stream/Steps has what each event keeps, Stream/Answers when an answer comes.
-- Pool: pkg/common/pool.go, as events. Pool/Entries has the numbers of the tasks and the map, Pool/Steps
-- what each event keeps, Pool/Laws the bound and the end of Close.
-- Task: the tasks of internal/downloader/cache_task.go and remote_task.go, and createCacheTask,
-- createRemoteTask and getQueueSize of internal/dao/downloader_dao.go.
-- Ranges: analysisFilePosition, getContiguousRanges and splitRemoteRange of
-- internal/dao/downloader_dao.go, and HasBlock of file.go.
-- The module Plan has constructTask and getRequestDomainScheduler of internal/dao/downloader_dao.go.
-- Repo: GetOrgRepo and SplitOrgRepo of pkg/util/repo_util.go.
-- SafeMap: pkg/common/safe_map.go, as a list of entries; SafeMap/Laws has it as a map.
-- Manager: internal/downloader/file_manager.go, the open cache files and their users. Manager/Keeps
-- has what Open and Resize leave alone, Manager/Laws the counts.
-- Http: RetryRequest, IsInnerDomain, constructClient and GetStream's choice of a domain of
-- pkg/util/http_util.go.
-- Fetch: getFileRangeFromRemote of internal/downloader/remote_task.go. Fetch/Chunks has the chunks of
-- one answer, Fetch/Laws what is sent, Fetch/Recovery the requests that fail.
-- Settings: pkg/config/config.go; Settings/Defaults has SetDefaults and Scan, Settings/Bounds what
-- they ensure.
-- Proxy: the proxy check of internal/service/sys_service.go; Proxy/Laws has its history.
-- Clean: checkDiskUsage and deleteRecordByFilePath of internal/service/sys_service.go with the orders
-- of pkg/util/repo_util.go; Clean/Order has the orders, Clean/Laws the loop,
-- Clean/Largest the strategy LARGE_FIRST.
-- LocalOperation: internal/service/local_operation_service.go, the sync of reports that were kept.
-- Limit: pkg/middleware/queue_limit.go; Limit/Steps has the server as requests come and go.
-- RangeHeader: parseRangeParams and constructRespHeader of internal/dao/file_dao.go, Atoi64 of
-- pkg/util/util.go. RangeHeader/Decimal has printed numbers, RangeHeader/RoundTrip the header.
-- CacheContent: WriteCacheRequest and ReadCacheRequest of internal/dao/file_dao.go.
-- Access: GetPathsInfo, GetFileCommitSha and what they call of internal/dao/file_dao.go, with the keys
-- of internal/dao/lock_dao.go; Access/Laws has the grants.
-- Metadata: GetMetadata of internal/dao/meta_dao.go and RepoRefs of internal/service/meta_service.go;
-- Metadata/Laws has what is read back offline, Metadata/Kept which files are written, Metadata/Cache what
-- becomes of the cache.
-- Links: ConstructBlobsAndFileFile of internal/dao/file_dao.go and its calls of pkg/util/repo_util.go, on
-- paths that hold files or links, with calls that may fail; Links/Laws has the link and the bytes.
-- FileGet: FileGetGenerator of internal/dao/file_dao.go, FileHeadCommon and FileGetCommon of
-- internal/service/file_service.go; FileGet/Laws has who is served.
-- Modelscope: internal/service/modelscope_service.go, from the Range header to the last byte. Modelscope/Reads
-- has the reads of the cache file, Modelscope/Copy the loop that copies an answer, Modelscope/Laws the whole request.
-- Lock: the renewal loop of pkg/lock/distributed_lock.go.
-- Tests: the definitions and the theorems at small concrete values.
--
-- Positions and sizes are numbers, after the checks of the code that refuse negative ones; the
-- header's fields keep the wrap-around of uint64. The scheduler is an argument of the plan, and so
-- is the moment at which a context ends, the digest MD5 of a block's key and the settings. Loops
-- over blocks count their rounds beforehand, from the same two block numbers as the code's loop
-- condition; the loop of splitRemoteRange has one round for each byte of its range, and each round
-- moves on by one byte at least. A fetch has two rounds, as the code's loop, and each of them the
-- attempts of the settings, which are at least 1 once the settings were checked. The loop that copies an
-- answer of ModelScope has a round for each byte of the file and of the answer and for each piece of it,
-- and it is proved that it ends before. The answers of
-- servers, of the hub and of the scheduler, the JSON library, the decompression and what a walk of
-- the file system finds are arguments. The response chunk size of the settings is not 0, without which the
-- code divides by 0.
--
-- Not modelled: locks but that of the pool (the operations run one after the other), errors of the file system other than
-- a missing file and those of the calls in Links, logging, the transport below
-- HTTP, the requests to ModelScope that are only forwarded and two of them for one file, the jobs that fill the cache, and the parts of the program that only call other programs.
pub mod Base
pub mod Download
pub mod Stream
pub mod Pool
pub mod Links
pub mod FileGet
pub mod Modelscope
pub mod Metadata
pub mod Errors
pub mod Bitset
pub mod Header
pub mod Block
pub mod Task
pub mod Ranges
pub mod Repo
pub mod Plan
pub mod Disk
pub mod Cache
pub mod Reader
pub mod CacheRead
pub mod Remote
pub mod SafeMap
pub mod Http
pub mod Fetch
pub mod Settings
pub mod Proxy
pub mod Clean
pub mod LocalOperation
pub mod Limit
pub mod RangeHeader
pub mod CacheContent
pub mod Access
pub mod Lock
pub mod Manager
pub mod Tests
