-- ===== src/Lib.antt =====
-- A model of the core logic of DeployMonster, a self-hosted platform that builds, deploys and routes
-- applications, with the theorems that hold of it.
--
-- The program is a set of modules that a registry starts in the order of their dependencies and
-- stops in reverse. A request reaches the API through a rate limiter, or an application through the
-- ingress: the route table finds the entry for its host and path, and a strategy picks a backend.
-- Calls of other services and of backends go through circuit breakers. Builds pass a queue that
-- limits them per tenant, and commands for containers pass a policy. A compose file is
-- interpolated, parsed and deployed service by service. Modules tell each other of what happens on the
-- event bus. An application is rolled back to an earlier version on request, and by itself after a
-- failed deployment.
--
-- Parts, each a module with its theorems and its tests below it:
-- - Core.Registry: internal/core/registry.go. Register, Resolve, InitAll, StartAll, StopAll.
-- - Core.Breaker: internal/core/circuitbreaker.go. beforeCall, afterCall, Execute, Stats.
-- - Core.Retry: internal/core/retry.go.
-- - Core.Events: internal/core/events.go. Subscribe, Unsubscribe, OnError, Publish; Core.AsyncPool: the
--   goroutines of its asynchronous handlers.
-- - Core.Scheduler: internal/core/scheduler.go. Add, Remove, Start, Stop, tick, runJob, calcNextRun.
-- - Core.CommandSafety: internal/core/command_safety.go. SplitCommand, CommandTokensSafe, CommandSafe.
-- - Graceful.Circuit, Graceful.Manager: internal/deploy/graceful/circuit.go, the breaker of a backend
--   and the map of breakers.
-- - Ingress.RouteTable, over Ingress.Sorting: internal/ingress/router.go.
-- - Ingress.Weighted, Ingress.LeastConn, Ingress.Balancer: internal/ingress/lb.
-- - Api.ClientIp: safeClientIP of internal/api/middleware/ratelimit.go; Api.GlobalLimiter, which
--   counts under that address: internal/api/middleware/global_ratelimit.go.
-- - Api.KvLimiter: the limiters of logins and tenants, internal/api/middleware/ratelimit.go and
--   internal/api/middleware/tenant_ratelimit.go.
-- - Discovery.Health: internal/discovery/health.go. Register, Deregister, checkAll, IsHealthy.
-- - Deploy.Rollback, Deploy.AutoRollback: internal/deploy/rollback.go, internal/deploy/autorollback.go.
-- - Compose, Compose.Secrets: internal/compose/parser.go. Parse, DependencyOrder, Interpolate;
--   Compose.Stack: internal/compose/deployer.go, which deploys the services in that order.
-- - Api.Idempotency: requests with an idempotency key, internal/api/middleware/idempotency.go.
-- - Build.TenantQueue: internal/build/tenant_queue.go.
-- - Prelude: numbers, integers, maps, lists and byte strings that the parts share.
--
-- A struct is a record with its fields, a method a function from the old state to the new one and
-- its results, and what a mutex guards is one step; a run is a list of steps, so that it stands for
-- any interleaving. A call of a breaker is two steps, with other steps between. The build queue is
-- modelled finer: every operation on a channel is a step, and the goroutines go on in any order.
--
-- Numbers: counters of type int are natural numbers without an upper bound, except where Go's
-- wrap-around matters: the uint64 and uint32 of the strategies wrap. Values of type int that can be
-- negative are integers. A time is the number of nanoseconds since a fixed moment and is an argument
-- of the operation that reads the clock; an operation that reads it twice has two. Durations are
-- not negative, except in the scheduler.
--
-- Fuel: only Resolve and DependencyOrder recurse without an argument that gets smaller. They run on
-- one more than the number of modules or services, the depth that their sets of visited names allow,
-- and are shown never to run out.
--
-- Parameters: sort.Slice, with the promise that it permutes and sorts; net.ParseIP with the printing
-- and the tests of an address; whether Init, Start or Stop of a module fails; the order of ranging
-- over a map; the YAML parser, the passwords that are drawn, the container runtime, the answers of the
-- store to a rollback, the parsers of package time, fmt.Sscanf and the arithmetic of float64.
-- strings.ToLower and strings.TrimSpace are those on ASCII.
--
-- Not modelled: logging and metrics; goroutines that only call a modelled operation on a timer; that
-- two requests can make the breaker of a backend at the same time before one of them is kept; what a
-- failed creation leaves in the container runtime, and whether a stop or a removal takes effect; the
-- storage, the HTTP handlers, the clients of Docker, DNS, Git, VPS and payment services, and the web
-- interface.
pub mod Prelude
pub mod Core
pub mod Graceful
pub mod Ingress
pub mod Api
pub mod Build
pub mod Discovery
pub mod Compose
pub mod Deploy
