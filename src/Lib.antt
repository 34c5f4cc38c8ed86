-- ===== src/Lib.antt =====
-- The server of emacs-tramp-rpc (server/src): a program that Emacs runs on a remote host over SSH, and
-- that answers MessagePack requests on its standard input with responses on its standard output.
--
-- The parts, and how they interact. main.rs cuts the input into messages and gives each to a task of its
-- own; the task decodes the request, checks its version and dispatches it by name (handlers/mod.rs) to a
-- handler, and writes the response, with its length in front, under the lock of the shared writer. A
-- batch runs several requests in one. The handlers keep little state: a table of managed processes and
-- one of pseudo-terminals, each with a counter of pids (handlers/process.rs), caches of the names of users
-- and groups (handlers/file.rs), and the watched paths (watcher.rs), whose changes are gathered and written
-- as notifications by the same writer.
--
-- The files, and what they model.
--   Prelude      names shared by all; Prelude.Table is std's HashMap as an association list
--   Protocol     protocol.rs: requests, responses, errors; Types: FileAttributes, DirEntry and
--                ProcessResult with `to_value`; Convert: IntoValue, path_or_bytes; Exit:
--                exit_code_from_status
--   Wire         the loop of `main`: read_loop is the loop, on_prefix, on_length and on_payload its
--                stages, drain the inner loop; Wire.Writer the task after its request is processed,
--                with the writer's lock
--   Dispatch     process_request, dispatch, dispatch_inner, batch_execute; Methods: the table of
--                methods
--   Exec         handlers as actions with a state and RpcError, and the `?` operator
--   Process      handlers/process.rs: Os what it uses of tokio and the system, State the table and the
--                counter, Run run and start, Pipes write, read and close_stdin, Control kill, status
--                and list
--   Pty          the pseudo-terminals of handlers/process.rs: Os what they use of the system, Child what
--                the forked child does, State the second table and check_exit_status, Start start_pty
--                and do_fork_exec, Read read_pty and wait_for_pty_readable, Control the other requests,
--                Steps all of them as steps that interleave
--   Names        get_user_name and get_group_name of handlers/file.rs, once over the libc call
--   Paths        expand_tilde, expand_tilde_path and bytes_to_path
--   Stat         stat, truename, get_file_attributes, get_file_type and map_io_error
--   PathFs       std::path and the questions to the file system, as parameters
--   Ancestors    handlers/commands.rs: Scan is ancestors_scan; Dominating is find_dominating_dir and the
--                handlers around it; Locals is the dir-locals update
--   Parallel     run_parallel of handlers/commands.rs, over what becomes of each thread
--   Dirs         handlers/dir.rs: Sort and Listing are list, with Attributes, Create is create and remove
--   Files        handlers/io.rs: Contents is read and write, Entries the requests about names, modes and
--                owners, Times the setting of times, Copy is copy
--   System       system.info, getenv, expand_path, statvfs and groups of handlers/mod.rs
--   Watch        watcher.rs: the manager and its handlers; Channel the callback and the notification;
--                Debounce is debounce_loop
--   Tests        test runs, and the theorems at concrete inputs
--
-- Conventions. Machine integers are naturals with their wrap-around written out (the pid counter,
-- saturating_mul) or below their bound by hypothesis. A Result is Result, an Option is Option, a panic is
-- `none`. Bytes are naturals below 256; a stream of input is the list of its bytes up to the end.
-- MessagePack encoding and decoding, tokio, libc and the file system are parameters; a law of theirs that
-- a theorem needs is a hypothesis of it. Concurrency is a list of events (Wire.Writer), an order of
-- running the futures (Dispatch), what other requests do to the state while one waits (Process.Pipes.read),
-- the steps of the handlers between two locks of a table (Pty.Steps), or the arrivals at a loop (Watch.Debounce).
--
-- Fuel. The main loop has one more round than the input has bytes, and every round takes at least the
-- four bytes of a length; a drain has one round for each byte that remains, and takes at least one; the
-- lookup of a name has 21 rounds, which double any positive size past 1 MiB; find_dominating and scan_loop
-- count the rounds that the source's own limits leave; the search for an existing directory and remap_loop
-- have one round for each component of the path and one more, and missing_loop two more. A copy has fuel for
-- the depth of the tree, as a parameter; no tree is deeper than the longest path that the system takes.
--
-- Not modelled: the setup of the runtime in main.rs and of the watcher's task, the unit tests, and the client
-- in Emacs Lisp. The blocking tasks around system calls never panic here, the memory that
-- a read reserves can be had, and the futures of a batch run whole, where the source may switch between
-- them at any await.
pub mod Prelude
pub mod Protocol
pub mod Wire
pub mod Dispatch
pub mod Exec
pub mod Process
pub mod Names
pub mod Paths
pub mod PathFs
pub mod Ancestors
pub mod Stat
pub mod Watch
pub mod Parallel
pub mod Dirs
pub mod Pty
pub mod Files
pub mod System
pub mod Tests
