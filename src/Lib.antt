-- ===== src/Lib.antt =====
-- libnebula, a C++ utility library: verification of its event loop, its producers and consumers
-- and the queue between them, its threads and mutex, its sockets, its byte swaps, its strings, its
-- token table, its line parsers, its clock and stop watch, its logger, its walk over a directory
-- and its histogram.
--
-- Files and what they model:
--   Histogram        src/histogram.cc, include/nebula/histogram.h. A histogram is a record of the
--                    five fields; `search` is the loop of `add`, `bucket_of` the search as `add`
--                    starts it. Children: Search (where it lands), Zone (the linear walk it is
--                    compared with), Summary (what a histogram holds), Merge, Clear, Show
--                    (toString; Lines: what it prints).
--   AsyncEvent       include/nebula/async_event.h. `AsyncEvent` is the object, `System` the system
--                    calls and the callbacks, as a parameter over a state W of all that lies
--                    outside. Fds: initialize, addFdEvent, delFdEvent, removeFd, start, stop.
--                    Timers: addTimeEvent, delTimeEvent, nearestTimeEvent, processTimeEvents.
--                    Dispatch: processFdEvents, processReadyFds, eventLoop. Valid has the
--                    invariant of the descriptor tables, Fds/Kernel their agreement with epoll,
--                    Timers/Table the invariant of the time events.
--   ProducerConsumer include/nebula/producer_consumer.h. A tasklet is its address; `process` is a
--                    parameter, and each call of a hook is an event of a log. Flow: the two loops.
--                    Life: reports and deletions. Fifo: interleavings of whole queue calls as a
--                    step relation. Locked: the same calls step by step, each access to the list
--                    and each call of pthread a step of its own, in any number of threads.
--                    Named: the texts of results, and the queue that a thread is attached to.
--   Mutex            include/nebula/mutex.h, over the mutex of pthread, `Pthread`, with what POSIX
--                    promises of it, `Excludes`. Owner: locks and trials. Noting: a mutex that keeps them.
--   Time             include/nebula/time.h. Stamp: time stamps and msSleep. Watch and Message:
--                    StopWatch, with the clock, the allocator and the text of the format as
--                    parameters. Calendar: the functions that format a time by strftime.
--   Poc              poc/gcc_atomic_vs_mutex.cc, the trial program.
--   Misc             include/nebula/misc.h: readAllBytes and nameToIp.
--   AsyncIo          include/nebula/async_io.h, src/async_io.cc: pipes and sockets over the system
--                    calls as a parameter, `Sockets`. Tidy: the balance of open descriptors.
--                    Options: the settings of a descriptor, with Words, what the
--                    setters leave, and Query, what the queries return then.
--   Text             src/strlcpy.cc, src/strlcat.cc, src/string.cc on byte memory, where an access
--                    outside is `none`. Copy and Append: what they leave. Chars: prefix, suffix
--                    and case. Number: strToI64 and strToU64. Slash: the start of a path,
--                    for the log file and the walk over a directory. Print: what snprintf writes
--                    of a text, for the logger and the stop watch.
--   AppLogger        include/nebula/app_logger.h, src/app_logger.cc. LogFile: FileHandle, over the
--                    file calls as a parameter `Files`. Message: LogHandle::log and the line that
--                    it shares with writeLogMessage. Server: LogServer, its callbacks,
--                    createConnection and getInstance; Server/Serve: its thread; Server/Destroy:
--                    destroyInstance and the destructors. `Calls` and `Output` give the system
--                    calls and the texts that printf formats.
--   Endian           include/nebula/endian.h: swaps and conversions, over the host's layout of
--                    16 bits as a parameter.
--   Tokens           include/nebula/text_file_parser.h: the table of tokens and splitString, over
--                    the tokens that strtok_r finds. Lines: parseLineByLine, over `Reader`, which
--                    gives the lines of the file and the callback.
--   FileSystem       include/nebula/file_system.h, src/file_system.cc: the status of a file and the
--                    walk over a directory, over `Disk`. Walk: the entries that are visited.
--   HardwareInfo     src/hardwareinfo.cc, include/nebula/hardwareinfo.h: rightTrim and the parsers
--                    of /proc/cpuinfo and /proc/meminfo, over the lines of those files. Trim and
--                    Memory: what they give. Once: the accessors, which parse at the first call.
--   Random           include/nebula/random.h: how numbers are joined from those of random_r. Join: which
--                    bits they hold.
--   Thread           include/nebula/thread.h: the atomic stop flag, startRoutine; Object: the thread
--                    as an object, over the calls of pthread.
--   Prelude          shared notation, lists, sums over arrays, bit operations, integers.
--
-- The parts meet where the source has them meet: a Producer and a Consumer are Threads and read
-- the stop flag, the event loop calls its three processing methods in turn, and the local
-- sockets take their path through strlcpy. The log server is a Thread whose routine sets up an
-- AsyncEvent and runs its loop; its two callbacks are the `call_fd` and `call_time` of `System`, and
-- the world of that loop holds the server's object. Its file name is put together with strlcpy,
-- strlcat and endsWith. The steps of Locked use the mutex of Mutex, and are compared with the
-- calls of Fifo. The trial program uses the compare-and-swap of Thread, that mutex, and the
-- StopWatch.
--
-- Integers: a `uint64_t` sum is cut by `% 2 ^ 64`, `~ mask` is taken in 32 bits, and the cast of
-- the wait to `int` wraps. A signed sum of 64 bits that does not fit is undefined, `none`. `int`
-- counters (descriptors, time events) are bounded by the sizes of the arrays, so they are numbers
-- without a bound; the index -1 is an outcome of its own.
--
-- Fuel: the search of `add` gets one round more than there are zones, each round narrows the
-- range; the loops over callbacks (processTimeEvents, processReadyFds) and eventLoop take fuel,
-- since a callback may add work for ever, and out of fuel is an outcome of its own; the theorems
-- that need the loop to end say how many rounds are enough. `setStopFlag` spins: two rounds. The wait
-- of `getInstance` takes fuel, since it may never end. `readAllBytes` takes fuel, since `read` may
-- give bytes for ever; a round for each byte there is and one more are enough.
--
-- Not modelled: memory allocation beyond its failure, the debug messages, String::strerror, what
-- strftime and printf make of a format (their texts are parameters), getLogHandle
-- and the other free functions of the logger, which forward, and the destructors of Tokens and
-- TextFileParser, which free. Of the destructor of AsyncEvent the close of its descriptor of epoll is
-- modelled, in Server/Destroy, and not the frees.
pub mod AppLogger
pub mod AsyncEvent
pub mod AsyncIo
pub mod Endian
pub mod FileSystem
pub mod HardwareInfo
pub mod Histogram
pub mod Misc
pub mod Mutex
pub mod Poc
pub mod Prelude
pub mod ProducerConsumer
pub mod Random
pub mod Text
pub mod Thread
pub mod Time
pub mod Tokens
