-- ===== src/Lib.antt =====
-- The core of Beta9: the scheduler, the Redis repositories it keeps its state in, the request
-- buffers, the autoscalers, the dispatcher of tasks, the containers and GPU devices of a worker,
-- the sessions of bots and the registry of inference nodes.
--
-- How the parts interact. `Scheduler.Run` stores the state of a container through the container
-- repository, within the concurrency limit of its workspace, and puts the request in a backlog. The
-- processing loop pops a request, selects a worker (filters, score, sort), and schedules the
-- request on it through the worker repository, which takes the capacity off the worker in Redis and
-- appends the request to the worker's queue. Endpoint, task queue and pod instances sample their
-- load, a scale function turns the sample into a number of containers, and the instance starts or
-- stops containers to reach it. The request proxies keep requests in a ring buffer, and an
-- endpoint's takes a token of a container for each request that it forwards. A worker asks for its
-- next request and gets it as a message. The steps of a bot's session fire the transitions of its
-- network, each of which sends a task. The gateway's model registry keeps which node serves which
-- model. The gateway's dispatcher keeps the tasks of deployed functions in Redis: it sends them,
-- containers claim them, and a monitor retries or cancels those that have no heart beat or have
-- expired. A worker runs the container of each request, gives it GPU devices and an address of its
-- machine, and returns its capacity to the worker repository when it has ended.
--
-- The files, and the code they are about:
--   Types                    pkg/types/scheduler.go, pkg/types/gpu.go
--   Types.Related            the structs of a request in pkg/types/{backend,worker,config}.go
--   Wire                     ToProto and New…FromProto of pkg/types/{scheduler,backend,worker}.go
--                            and pkg/types/config.go, and their messages in proto/types.pb.go
--   Scheduler.Filters        the worker filters of pkg/scheduler/scheduler.go
--   Scheduler.Select         selectWorker of pkg/scheduler/scheduler.go
--   Scheduler.Run            Run and getConcurrencyLimit of pkg/scheduler/scheduler.go
--   Scheduler.Dispatch       scheduleRequest, the credentials and Stop of
--                            pkg/scheduler/scheduler.go, pkg/scheduler/backlog.go
--   Scheduler.Turn           StartProcessingRequests of pkg/scheduler/scheduler.go
--   Scheduler.Pools          pkg/scheduler/pool_manager.go, and getControllers and
--                            filterControllersByFlags of pkg/scheduler/scheduler.go
--   Scheduler.Sizing         freePoolCapacity of pkg/scheduler/pool.go, and shouldAddWorker and
--                            addWorkerIfNeeded of pkg/scheduler/pool_sizing.go
--   Scheduler.Health         pkg/scheduler/pool_health.go
--   Scheduler.Cleaner        pkg/scheduler/pool_cleaner.go
--   Scheduler.Backlog        addRequestToBacklog and calculateBackoffDelay of
--                            pkg/scheduler/scheduler.go
--   Repository.Worker        pkg/repository/worker_redis.go
--   Repository.Container     pkg/repository/container_redis.go
--   RingBuffer               pkg/abstractions/common/ring_buffer.go
--   RequestBuffer            pkg/abstractions/endpoint/buffer.go
--   Bot                      pkg/abstractions/experimental/bot/{instance,state,types}.go
--   Tailscale                GetHostnameForService of pkg/network/tailscale.go
--   Autoscaler.Scale         pkg/abstractions/{endpoint,taskqueue,pod}/autoscaler.go
--   Autoscaler.Instance      pkg/abstractions/common/instance.go
--   Task.Redis, Task.Store   pkg/repository/task_redis.go, pkg/types/task.go
--   Task.Dispatcher          pkg/task/dispatch.go
--   Task.Executors           pkg/abstractions/{endpoint,taskqueue}/task.go
--   WorkerNode.Requests      RunContainer of pkg/worker/lifecycle.go
--   WorkerNode.Lifecycle     pkg/worker/worker.go and pkg/worker/lifecycle.go
--   WorkerNode.Gpu           pkg/worker/nvidia.go
--   WorkerNode.Network       the container addresses of pkg/worker/network.go and of
--                            pkg/repository/worker_redis.go
--   ModelRegistry            pkg/gateway/model_registry.go, pkg/types/inference.go
--
-- A function keeps its name in snake case (`ScheduleContainerRequest` is
-- `schedule_container_request`); the child modules of a part hold its lemmas and theorems. Base has
-- the shared library: tests, lists, integers, machine integers, and the monad of calls. Examples
-- has stores in memory, data and the theorems at concrete inputs.
--
-- Numbers. An int64 or int32 is an integer that `i64` or `i32` wraps after each operation, a uint32
-- a natural number with `u32` and `sub_u32`; `int` is an int64. Text is the native string.
--
-- Services. Redis and the lock service are parameters: a record of commands, each with its
-- documented effect on the stored values as a law (`Reads`: it changes nothing and answers by the
-- stored values or fails; `Writes`: if it answers, it has taken place, and if it fails it has taken
-- place or not; `Updates`: both in one). A call maps the service's state to an answer or an error
-- and a new state, `defer` is `finally`, and a failed step keeps the state it left. `sort.Slice` is
-- a parameter with the law that it permutes and orders; it is not stable. The score of a request in
-- the backlog is its time as a float64, whose rounding is a parameter that keeps the order. The
-- dispatcher takes what an executor makes of a message as a parameter whose methods leave the keys
-- of other tasks alone; the tasks of endpoints and task queues are modelled, over a table of tasks
-- that is a parameter. Where several processes act (the dispatchers, the releases of GPU devices),
-- their operations are steps of a reachability relation, and what a process has read may be stale;
-- the tokens of endpoints have a step for each single command, one for the expiry of the
-- counter and one for the release when a heart beat expires, and the goroutines of a worker one between two uses of the container lock or of the
-- channel of completed requests, whose size is a guard. The calls of the Kubernetes API and of the
-- network are parameters, as is the source of random numbers, with the law that its numbers are in
-- range. `range` over a map visits the entries in an order that is a list or a parameter.
--
-- Bounds. Every loop is recursion on a list, or on the number of addresses of the subnet that are
-- left to try, so no fuel is used, but for the search for a hostname: its fuel is one more than the
-- number of hostnames, and one of them goes in each round. A loop without an end (the processing
-- loop, the monitors) is modelled by one turn of it.
--
-- Not modelled: HTTP and gRPC handlers, the database, images, storage, the links and rules of the
-- network, and the container runtime (system calls and services); metrics, events and logs; the arguments
-- of tasks, with what encoding and decoding does to them; expiry
-- of keys other than the tokens of endpoints; the texts of the configuration of
-- pools; of the repositories the addresses of workers and the remaining locks; the interleaving of
-- single commands of two schedulers; what a worker sets up for a container before it runs, and its
-- status updates and shutdown; the conversations and files of bots.
pub mod Base
pub mod Types
pub mod Scheduler
pub mod Repository
pub mod RingBuffer
pub mod RequestBuffer
pub mod Bot
pub mod Wire
pub mod Tailscale
pub mod Autoscaler
pub mod ModelRegistry
pub mod WorkerNode
pub mod Task
mod Examples
