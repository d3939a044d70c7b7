-- ===== src/Lib.antt =====
-- A verification library for stat_log, a C++ library by which a running program (the "operational"
-- side) records statistics and log entries in shared memory, and a control program reads, prints and
-- clears them.
--
-- The parts, and the files that model them:
--
--   Command: include/stat_log/util/command.h, the commands and their arguments.
--   Tags: the hierarchies of include/stat_log/util/stat_log_impl.h and the lookup of a handle in
--     include/stat_log/stat_log.h. Template metaprograms become functions on trees of tags: a
--     type's identity is a number, a failed static_assert is `none`.
--   Commander: include/stat_log/util/tag_commander.h and getHeadTail of src/utils.cpp. The control
--     object is a state with a function for `sendCommand`.
--   Levels: LogOpProxy and LogControlProxy of include/stat_log/loggers/logger_common.h, the log levels
--     in shared memory. Levels.Command holds what is proved of them.
--   Proxy: LogGenProxy and LoggerGenerator::writeData of the same file, up to the ring. A value that is
--     inserted is the text that the stream makes of it; what hexDump leaves behind in the state of the
--     stream (base, fill character) is not modelled. Proxy.Logged holds what is proved of them.
--   Memory: shared memory as bytes by address, with little-endian words.
--   Stats: include/stat_log/stats. The type of a statistic is a value of `StatType`; `shared_size`
--     is the size of its `shared_type`. Stats.Operation has the operational side (write, serialize),
--     Stats.Control the control side (doStatCommand); both work on the same memory. Stats.Scalars has
--     the features of mean.h, max.h, min.h and count.h, and Stats.Flat the flat view of an array. Frame,
--     Visits, Cells, Address, Written, Dump, Clear, Count, Protocol and Reads hold what is proved of
--     them.
--   Segment: LogStatBase::init of include/stat_log/util/stat_log_impl.h with setParams of
--     src/shared_mem_backend.cpp, where each handle lies in the shared memory and what is in it then.
--     Its children Places, Sides, Init and Lookup hold what is proved of them.
--   Backend: opening the shared memory, setParams of src/shared_mem_backend.cpp and the constructor of
--     shared_mem_logger_retriever. What boost::interprocess makes of the calls is an argument.
--   Macros: include/stat_log/util/make_stat_tags.h, the macros as functions on tokens, with the
--     repetition of boost's preprocessor as a parameter. Macros.Lists holds what is proved of them.
--   Operational: LogStatOperational of include/stat_log/stat_log.h, writeStat, addLogger and getLog;
--     Operational.Thread has doInit, the serialisation thread and doStop as steps that interleave.
--     Operational.Statements has the log statements of a program, run in order.
--     Separate, Gate, Statements.Printed, Thread.Stopped and Thread.Runaway hold what is proved of them.
--   Control: LogStatControl of the same file, parseUserCommands, sendCommand and outputLog. A program
--     that exits is a value of `Outcome`. Send, Dumped, Leveled (with its child Commanded), Others and
--     Exit hold what is proved of them.
--   CommandLine: parseCommandLineArgs of src/utils.cpp, on the options that boost's program_options
--     finds. CommandLine.Dump holds what is proved of it.
--   Printer: include/stat_log/util/printer.h and src/printer.cpp. boost::split and lexical_cast are the
--     fields of `TextTools`. setStatDisplayArgs, whose body is empty, is left out. Printer.Dump has
--     showOutput; Displays, Labels, Written and Ranges hold what is proved of them, and Printer.Small an
--     instance of the tools.
--   Histogram: histogram_impl of include/stat_log/stats/accumulator_types/boost_hist.hpp. `double` is a
--     type with the operations that the code uses. Histogram.Image is histogram.h beside it, the shared
--     image as a feature of an accumulator. Bins, Totals, Image.Fields and Image.Dumped hold what is
--     proved of them, and Histogram.Small an instance for the tests.
--   BitStatus: writeBitStatus of include/stat_log/util/bit_status.h; BitStatus.Counts holds what is
--     proved of it.
--   Ring: src/shared_memory_logger.cpp, the ring of log blocks of 512 bytes in shared memory. Ring has
--     its layout and doWriteData, Ring.Retriever has getLog; Avoid, Strings, Kept, Blocks, Loop, Header,
--     Found, Entry and First hold what is proved of them. Address 0 is `shm_ptr`, the byte behind the
--     lock.
--     Ring.Locked has the lock, under which the threads and the control process interleave.
--     Ring.Sequence has the writes of a sequence of entries; Ring.Around counts positions on over the
--     rounds of the ring, and Ring.Retriever.Lines, Ring.Sequence.Steps, Newest and Printed hold what is
--     proved of what is printed of them, and Ring.Locked.Copied what is proved of the lock.
--
-- How they interact: the commander walks a hierarchy and sends a command to each node; the handle of
-- the node runs doStatCommand on the part of the shared memory that the operational side writes. The
-- processes share nothing but that memory, so the two sides are functions on one `Mem`.
--
-- Conventions. Values of fundamental types are their bit patterns; `Repr` holds the operations of a
-- type, so `double` is covered by whatever its addition does. A failed assertion, or a call that does
-- not compile, is `none`. Boost's accumulator sets are not part of this repository: an accumulator is
-- the list of the samples that it was fed, and what a feature extracts from it is a parameter of the
-- feature. The printing of a feature's value by a stream is a parameter too. All recursion is
-- structural (on the hierarchy, the type, or the rounds left of a counted loop), so no fuel is needed,
-- except for the decimal digits of a number, whose fuel is the number itself, the writing loop of
-- doWriteData, whose fuel is the length of the text and two (a pass copies a byte at least), and the
-- printing loop of getLog, whose fuel is the number of blocks and one (a pass takes a block at least).
-- A C string is read up to the end of the retriever's copy; one that has no NUL before is `none`. What
-- `localtime` and `strftime` make of a time is a parameter.
--
-- Not modelled: the output file of getLog, the table of the options and their parsing by boost's
-- program_options, how the operating system shares memory and implements locks, SL_APPEND_TO_TAG_LIST
-- and SL_JOIN_LISTS (calls of boost::fusion alone), and the headers compound.h, time_series.h,
-- stream_logger.h, compile_proxy.h and utils.h. A pass of the serialisation thread is one step: that
-- another thread may write while it reads is not modelled. init is called once, and before stop; stop
-- may be called again. Where getLog prints nothing, `fault` also stands for its exit with code 1 on a
-- time that has no text.
pub mod Base
pub mod Command
pub mod Tags
pub mod Commander
pub mod Levels
pub mod Memory
pub mod Operational
pub mod Control
pub mod CommandLine
pub mod Histogram
pub mod BitStatus
pub mod Printer
pub mod Proxy
pub mod Ring
pub mod Segment
pub mod Stats
pub mod Backend
pub mod Macros
