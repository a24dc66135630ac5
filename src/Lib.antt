-- ===== src/Lib.antt =====
-- A model of fuji, a daemon that keeps network mounts alive and shares its configuration with the
-- other instances of a cluster.
--
-- The program's parts and where they are modelled:
--   - src/mount/mod.rs, the configuration entry of a mount: Mount/Config. `MountConfig`,
--     `MountType` and `MountStatus` have the source's fields and variants; `update_status`,
--     `enable` and the like are functions on the record.
--   - src/mount/state_machine.rs, the state of one mount with its bounded history and its
--     broadcast channel: Mount/StateMachine. A call releases each lock before it takes the next;
--     calls that cross are not modelled, so that a call is a function from the machine to the
--     machine. The channel is the list of what was sent. Mount/StateMachine/History is about the
--     history, Mount/StateMachine/Transitions about the order of the states.
--   - src/mount/options.rs, the options of a mount command: Mount/Options for the records,
--     Mount/Options/Text for the texts, Tables for the names that a file system knows, Process
--     for one option, Parse for `parse`, `apply_defaults`, `validate_options` and `format`;
--     RoundTrip relates `format` to what `parse` reads. A set of names is a list; a `match` on a
--     name is a table and clauses for its arms.
--   - src/monitoring/retry.rs, the retry handler with a circuit breaker per mount:
--     Monitoring/Retry for the records and their operations, Monitoring/Retry/Breaker for runs of
--     one breaker, Monitoring/Retry/Loop for `execute_with_retry`, whose children tell how the
--     loop ends and when it succeeds.
--   - src/monitoring/mount_retry.rs, which mounts through the retry handler and records the
--     outcome in the configuration: Monitoring/MountRetry, with the policies in
--     Monitoring/MountRetry/Policy. A single attempt is what a round of the loop is answered; the
--     parser of floating point numbers is an argument.
--   - src/monitoring/scheduler.rs, the scheduler of health checks: Monitoring/Scheduler for its
--     state and the registrations, Checks below it for a run of the checks of one mount, Lock and
--     Score about them. The cron scheduler and the single checks are arguments; the lock of the
--     registered checks is part of the state, as it is kept while it is waited for.
--     src/monitoring/mod.rs, the manager that uses the scheduler and the validation of
--     dependencies: Monitoring/Manager.
--   - src/monitoring/dependency.rs, the graph of dependencies between mounts:
--     Monitoring/Dependency for the graph with its two indexes, Groups below it for the
--     sequences, Cycles for the search for cycles, Dot for the DOT text; Order and Acyclic are
--     about the sequences and the search. petgraph's directed graph is a record of operations
--     that the model takes as an argument.
--   - src/cluster/mod.rs, what an instance knows of its peers: Cluster, and Cluster/Peers for
--     runs of its calls. src/cluster/discovery.rs, the invitations: Cluster/Discovery, with the
--     HMAC as an argument, and Cluster/Invitations on what is accepted.
--   - src/config/mod.rs, the configuration of one instance: Config for the types and defaults,
--     Config/Operations for the mounts and the peers, Config/ForceSync for the force sync. The
--     `Runs` of Config/ForceSync are sequences of its calls.
--   - src/sync/merge.rs, the merge of the configurations of several instances: Sync/Merge for the
--     choice between the versions of one mount, Sync/Merge/Configs for `merge_configs`, and one
--     child for each of its properties; Sync/Merge/Marked relates a merge to `mark_modified`. The
--     merge reads the types of src/config/mod.rs and compares the entries of src/mount/mod.rs.
--   - src/sync/protocol.rs, the messages: Sync/Protocol. src/sync/coordinator.rs, which answers
--     them, starts syncs and force syncs, and merges: Sync/Coordinator for the state and the
--     conflicts, and below it Apply for `perform_merge`, Handle for the handlers, Initiate for
--     syncs, force syncs and timeouts, Join for `join_cluster`, Run for runs of all of these. A
--     call takes the state to a state, what was handed to the transport, the timeouts that were
--     spawned, and an outcome: the result, or that the call waits for the lock of the pending
--     syncs. That lock is part of the state, since a handler keeps it while it awaits the merge
--     and asks for it again. Other locks are held while others are awaited too, as in
--     `join_cluster` (the configuration, then the cluster state) and `should_initiate_sync`;
--     these are not part of the state. In a run each call ends, or waits, before the next begins.
--     The exception is an update: its check of the version and its write are under two locks, and
--     the tasks of two connections may cross there. Tasks has these as two steps, and its
--     children Register, Kept and Newest are about every interleaving of them. Steps, Updates,
--     Lock, Pending, Requests, Schedule, Postpone, Forgets and Force are about runs and about the
--     ends of single calls. The coordinator uses the cluster state, the configuration and its
--     force sync, and the merge.
--   - src/security/path_security.rs, the validator of paths: Security/Paths for the paths and
--     texts of the standard library, Security/PathSecurity for the state, the blocked paths and
--     the log, and below it Validate for `validate_path`, Integrity for registrations and the
--     checks of a mount; Allowed, Accepted and Registered about them. What the file system
--     answers is an argument.
-- Base holds what these share: the library's names, Boolean tests on natural numbers, association
-- lists for the hash maps, sorting, and results. Tests holds runs at fixed inputs.
--
-- Conventions. A time is a number of nanoseconds since the epoch, and the clock is an argument of
-- what reads it; times before the epoch are not modelled. A duration is a number of nanoseconds.
-- A `u32` or `u64` counter that is incremented wraps, `% 2 ^ 32` or `% 2 ^ 64`, as in a release
-- build. A hash map is a list of entries with one entry per key; where a map is iterated the order
-- is that of insertion. Strings are the native strings, ordered by their characters, which is the
-- order of their UTF-8 bytes. A floating point number of a policy is a decimal that is kept and not
-- computed with. A panic and an `Err` are values (`none`, `err`).
--
-- Fuel. `run_attempts` has one more round of fuel than the policy has attempts, since the loop
-- stops when the number of attempts reaches the policy's; that it is enough is part of what is
-- proved about the loop. The search for cycles recurses on fuel; the source gives up above a
-- stack of 1000 mounts, so that 1002 levels are enough where every node stands for a mount. The
-- digits of a number are printed with fuel 20, the number of digits of the largest `usize`. All
-- other loops are by recursion on a list or a text.
--
-- Not modelled: the operating system's mount commands, sockets, files, serialisation and logging;
-- the command line; the daemon's tasks; the delay computed by the backoff crate, which is an
-- argument of each round of the loop; the other security modules; the transport of a cluster and
-- the file that keeps the identifier of an instance; the single health checks.
pub mod Base
pub mod Cluster
pub mod Config
pub mod Monitoring
pub mod Mount
pub mod Security
pub mod Sync
pub mod Tests
