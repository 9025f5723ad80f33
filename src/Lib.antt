-- ===== src/Lib.antt =====
-- Joblet runs jobs on one Linux node. Its server keeps what it knows in stores, guarded by mutexes,
-- and hands out GPUs, addresses and volumes to jobs. This library models those stores and the
-- authorization of the calls that reach them, each call as a function from the state before it to the
-- state after it and its answer; a history of calls is a list or a relation on states. A call of the
-- GPU manager, the priority queue and the state service's memory backend holds one mutex from begin to
-- end. The job, network and volume stores and Joblet take locks for parts of a call only, and some
-- of their calls can go wrong when they overlap. Their theorems are about calls that do not overlap;
-- for Joblet a call is cut at its waits and between its writes to the store and to the scheduler, and
-- the parts follow each other in any order.
--
-- Parts, and how they correspond to the code:
-- - Gpu (internal/joblet/gpu/manager.go, types.go, allocation_strategy.go). `allocate` is AllocateGPUs,
--   `release` ReleaseGPUs, `clear_quarantine` ClearQuarantine, `initialize` Initialize. The map from an
--   index to a GPU is the list of its GPUs; Go's sort.Slice is an insertion sort. What nvidia-smi
--   reports of a GPU's memory is an argument of `release`, and discovery one of `initialize`.
-- - Network (internal/joblet/adapters/network_store_adapter.go over in_memory_stores.go).
--   `create_network`, `remove_network`, `assign_job_to_network`, `allocate_ip`, `release_ip` and so on
--   are the methods of those names. Package net is the parameter NetPackage; an address is the list of
--   its bytes. The loop of initializeIPPool takes a number of rounds, and a call that would need more
--   is the error `diverges`; Network.Ending says how many rounds are enough.
-- - Auth (internal/joblet/auth/grpc_authorization.go). `authorized` is Authorized for a peer that gRPC
--   hands over; strings.ToLower is a parameter.
-- - Volume (internal/joblet/adapters/volume_store_adapter.go, internal/joblet/domain/volume.go). The
--   counts are numbers without a bound, as each step of one is a call.
-- - Jobs (internal/joblet/adapters/job_store_adapter.go and log_buffer.go, internal/joblet/domain/job.go).
--   `create_new_job`, `update_job`, `delete_job`, `write_to_buffer`, `output` and so on are the methods
--   of those names. A job is a value: a caller that changes a job after handing it in, without an
--   UpdateJob, is not modelled. Events and the calls to the state service are recorded in the order in
--   which they are started. The persist service's answer to a deletion is an argument.
-- - Scheduler (internal/joblet/scheduler/). `add`, `next`, `remove` and `update` are the methods of
--   PriorityQueue, over the sifting loops of Go's container/heap in Scheduler.Heap; a loop gets as many
--   rounds as there are indices, which Scheduler.Heap.Up and Scheduler.Heap.Down show to be enough.
--   Scheduler.Loop is the run loop, as moves between the phases of its body, beside the callers and the
--   clock; `check` is its body up to the first wait and `take_next` its end.
-- - Lifecycle (internal/joblet/core/joblet.go). `start_job` is StartJob, `schedule_job` and
--   `finish_schedule` scheduleJob up to and after CreateNewJob, `stop_job` StopJob up to its wait,
--   `finish_cancel` its UpdateJob for a queued job and `finish_stop` its end after the cleanup, `begin_execution` and `finish_execution`
--   executeJob before and after the start of the process, `finish_monitor` the end of monitorJob.
--   Lifecycle.History lets these parts interleave in any order, over the job store and the scheduler.
--   It starts from an empty store; RecoverScheduledJobs, in Lifecycle.Recovery, is no step of it.
-- - Lifecycle.Builder (internal/joblet/core/job/builder.go) and Limits (internal/joblet/domain/values/
--   cpu.go, memory.go and bandwidth.go, and internal/joblet/domain/resource_limits.go). `build` is Build,
--   `limits_from_params` NewResourceLimitsFromParams, `parse_cpu_core_set` ParseCPUCoreSet. Package
--   strings, Atoi and ParseDuration are parameters.
-- - StateStore (state/internal/storage/memory.go and interface.go). `create`, `get`, `update`, `delete`,
--   `list` and `sync` are the methods of memoryBackend.
-- - Semver (pkg/semver/semver.go). Package strings and Atoi are parameters.
-- - PubSub (internal/joblet/pubsub/pubsub.go). `publish` is Publish, in the parts `begin_publish`,
--   `deliver_all` and `deliver`; how many messages a reader takes while
--   the send to its channel waits, up to 100 ms, is an argument.
-- - Prelude: Boolean tests, lists over the native numbers, Go's maps, errors and integers.
--
-- A time is a number that the call is given. In each part the files under it prove what is listed
-- below; a file Tests runs the theorems on small inputs.
--
-- Not modelled: live log streaming, the files and DynamoDB behind the state service, the persist service,
-- the printing of limits and sizes, the other value objects, servers, process execution, metrics and eBPF, and the command line client. Locks are not
-- modelled. A restart, which restores the stored jobs, is no step of Lifecycle.History.
pub mod Prelude
pub mod Gpu
pub mod Network
pub mod Auth
pub mod Scheduler
pub mod Limits
pub mod Lifecycle
pub mod StateStore
pub mod Semver
pub mod Volume
pub mod Jobs
pub mod PubSub
