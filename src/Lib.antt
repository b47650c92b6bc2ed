-- ===== src/Lib.antt =====
-- A model of the blocklist agent for HAProxy: an SPOE agent that looks up the addresses of requests in a
-- MaxMind database and tells HAProxy, in the variable `ip_bad`, whether an address is in a configured
-- category.
--
-- How the parts interact. HAProxy sends frames (src/spoa/frame.h, frame.cpp) of typed values
-- (src/spoa/typed_data.h, typed_data.cpp), whose integers are varints (src/spoa/varint.h), through a
-- bounds-checked reader and writer (src/spoa/protocol_io.h). The agent (src/spoa/spoa_agent.h,
-- spoa_agent.cpp) parses a frame, looks up each argument (src/mmdb/mmdb.h, mmdb.cpp), matches the
-- categories found with those of the configuration (src/spoa/drop_categories.h, drop_categories.cpp),
-- counts, and answers. The server (src/spoa/spoa_server.cpp) hands it the frames of a connection one by
-- one.
--
-- The files:
--   Prelude          what the parts share: lists, bytes and machine words, results, integers, tests.
--   Utils.Strings    src/utils/string_utils.h: `trim`, `group_thousands`.
--   Utils.Ipv4       src/utils/net_utils.h: `parse_ipv4`.
--   Spoa.Varint      src/spoa/varint.h. Encoding has the wire form in plain arithmetic.
--   Spoa.Reader      the class Reader of src/spoa/protocol_io.h, a monad on the buffer and the position.
--                    Reads has what a successful read is, Bounds that no read leaves the buffer.
--   Spoa.Writer      the class BufferWriter of src/spoa/protocol_io.h. Words has the byte order, Writes
--                    what a write is.
--   Spoa.TypedData   src/spoa/typed_data.h and typed_data.cpp. Wire has the wire form.
--   Spoa.Message     src/spoa/message.h.
--   Spoa.Frame       src/spoa/frame.h and the encoders of src/spoa/frame.cpp.
--   Spoa.Parse       the parser of src/spoa/frame.cpp.
--   Spoa.Categories  src/spoa/drop_categories.h and drop_categories.cpp.
--   Spoa.Database    the lookups of src/mmdb/mmdb.h and mmdb.cpp, `parse_ipv6` of
--                    src/utils/net_utils.h.
--   Spoa.Entry       `format_entry` of src/mmdb/mmdb.cpp. Dump has values as trees.
--   Spoa.Mapping     the ownership of the mapped file, src/mmdb/mmdb.cpp.
--   Spoa.Agent       src/spoa/spoa_agent.h and spoa_agent.cpp.
--   Spoa.Server      the connections of src/spoa/spoa_server.cpp.
--   Spoa.Metadata    `metadata_string` of src/mmdb/mmdb.cpp.
--   Spoa.Reload      src/mmdb/mmdb_reload.h and mmdb_reload.cpp: the private copy of a database, the
--                    watcher, `open` and `close`, step by step.
--   Builder          the encoders of src/mmdb_builder/builder.cpp. Headers has a reader of the format, Values
--                    the numbers and the other values of `serialize_data` that hold no value.
--   Builder.Trie     `insert_bits` of src/mmdb_builder/builder.cpp with what it calls. Walk says which data
--                    an address finds, Merge and Descend what the two halves of an insertion do.
--   Builder.Prune    `prune_tree_parallel`.
--   Builder.Search   the numbering of the nodes and the search tree that `build` writes. Records reads a
--                    record back as the format says, Empty has the trees that lose their root.
--   Builder.Used     `collect_used_data_parallel`.
--   Builder.Pool     `intern` and `store` of the class DataPool. Intern says what an ID stands for, Cells how
--                    the records of the compiler stand in the pool.
--   Builder.Network  `parse_network`, `insert_parsed`, `insert_network`.
--   Compiler         `process_file` of src/firehol_blocklist_ipsets/compiler.cpp. Meaning says what a line
--                    means, Lines what the lines of a text are, Reading what the loop keeps. What it
--                    needs of the pool is the interface `Store`, which Pooled fills.
--   Compiler.Workers the worker threads of `compile_to_mmdb`, step by step. Share and Steps have what every
--                    step keeps, Ends what holds when they are joined, Turns how long that takes.
--   Compiler.Publish `list_blocklists` and `compile_to_mmdb` around the workers.
--   Scheduler        src/job_scheduler/job_scheduler.cpp: the field count of an expression, the rounds of the
--                    loop and their counters.
--   Tests            runs and applications of the theorems at concrete inputs.
--
-- The state. A reader or writer is its buffer with a position; a call that moves it returns the moved
-- one. The agent is the record `Agent`: the categories with their counters, and the counters of lookups.
-- Functions that throw `spoe::Error` return `Result`, one constructor of `Error` for each message. Views
-- are the bytes that they show. Unsigned integers are natural numbers with their bound or wrap-around
-- written out; signed ones are ℤ with the casts of src/spoa/typed_data.cpp.
--
-- Bounds and fuel. The loops of the varint recurse on the number that gets smaller. The loops of the
-- parser run until the reader is empty and have as fuel the bytes that are left: each round reads at
-- least one, and that the fuel is enough is part of what is proved. So does the loop of a connection on
-- the bytes of its input. The digits of an index have ten rounds, which hold a uint32_t. The bytes of
-- a number in the data section have eight, which hold a uint64_t. Printing an entry has the number of its nodes.
-- The walks of the trie have 129 levels, which an address of 128 bits has at most, and those of a blocklist
-- one more than its bytes. The indices of nodes and the IDs of records are assumed to fit a uint32_t. The loops of the reload run
-- over the list of what the kernel calls return.
--
-- Parameters. libmaxminddb and `inet_pton` are the record `Library`, Seastar's `read_be` an argument with
-- the hypothesis that it reads what is written in network order. The merge of two records is an argument
-- of the trie, `strptime` with `strftime` an argument, and so are the result of the builder, the calls of the file system and the
-- interleaving of the workers around it; the host's byte order, the log level, the snapshot of the
-- database and the indeterminate bytes of a buffer on the stack are arguments.
--
-- Not modelled: log lines and durations, Seastar's futures and sockets (a reply is the bytes that are
-- written and whether the connection stops), exhaustion of memory and, in the
-- compiler, of threads, the accept loop, the merge of records and the order of the builder's data section, the git repository, the registration of the
-- metrics and the start of the program. croncpp is a copy of another library.
pub mod Prelude
pub mod Utils
pub mod Spoa
pub mod Builder
pub mod Compiler
pub mod Scheduler
pub mod Tests
