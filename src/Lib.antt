-- ===== src/Lib.antt =====
-- Replicator scales a HashiCorp Nomad cluster: it adds and removes worker nodes, pool by pool, and it
-- changes the counts of the task groups of jobs. This library models both, with the server, the agent
-- and the commands around them, from the discovery of nodes and policies to the requests sent to AWS
-- and Nomad.
--
-- The parts, and how they work together:
--
-- * Discovery (client/node_discovery.go: NodeWatcher, ProcessNodeConfig; LoadPoolConfig of
--   client/consul.go) follows Nomad's list of nodes and keeps the registry of pools and nodes by
--   Register, Deregister and NodeRegistryUpdated, which are in Registry, with NewScalingProvider of
--   cloud/cloud_provider.go. The registry is the record NodeRegistry; its maps are association lists.
-- * Scaling (replicator/cluster_scaling.go: workerPoolScaling, checkPoolScalingThreshold,
--   checkCooldownThreshold) evaluates one pool: it reads the stored state, asks the circuit breaker,
--   measures the pool, asks the provider, the cooldown and the request count, and then scales. `gate`
--   is all that comes before the scaling operation, `act` the operation.
-- * State (client/state.go: ReadState, PersistState) and Failsafe (replicator/failsafe.go) are the
--   stored state of a pool and its circuit breaker.
-- * Capacity (client/cluster_scaling.go; MostUtilizedResource, LeastAllocatedNode and
--   MaxAllowedClusterUtilization of client/nomad.go) measures a pool and decides.
-- * Drain (DrainNode of client/nomad.go) and Aws (cloud/aws; FindNodeByAddress of helper/funcs.go)
--   carry a decision out. The record Scaling.Machines is the interface ScalingProvider with DrainNode,
--   and Aws.Provider.aws_machines fills it.
-- * JobScaling (client/job_scaling.go, replicator/job_scaling.go, EvaluateJobScaling and what it calls
--   of client/nomad.go) measures the jobs that have policies and scales their groups. Policies
--   (client/job_scaling_policies.go) keeps these policies from the meta of the jobs.
-- * Health (VerifyNodeHealth of client/nomad.go) and Helper.Recent (FindNodeByRegistrationTime) wait for
--   new nodes; nothing calls them yet.
-- * Leader (replicator/leader.go, AcquireLeadership of client/consul.go,
--   replicator/node_protection.go) says which copy acts and which node it spares.
-- * Server (replicator/server.go, asyncClusterScaling and asyncJobScaling) holds the tickers: elections,
--   rounds over the pools, rounds over the jobs. Its state is the record Running.
-- * Config (replicator/structs/config.go, command/base) merges, parses and loads configurations. Agent
--   (command/agent/agent.go) makes a server of one and reacts to signals, Command
--   (command/failsafe.go) turns the failsafe mode on or off, and Notify (notifier) has the
--   notification backends.
-- * Helper (helper/funcs.go), Structs (replicator/structs), World (the calls of Consul and of the
--   notifiers), Floats (float64), Polling (loops over a ticker and a timeout), and Base (Go's `==`,
--   maps, 64-bit integers) serve the others. Examples holds the tests and the instances.
--
-- How the code is modelled. A call of the outside takes the world `W` and returns it changed; Nomad,
-- Consul, AWS, JSON, mapstructure, hashing, regular expressions and float64 are records of parameters.
-- `int` and `int64` are integers whose every operation is taken back to 64 bits. A panic is `none`, or
-- a constructor of its own. Times are nanoseconds after the zero time. Logging, metrics and the
-- failure of encoding/json on a plain struct are left out. A pool's state, which the source reaches
-- through the pool, is passed beside it where the registry is not concerned. What a function may do to
-- the outside is stated by an arbitrary property of the world: what the calls that are named keep, the
-- function keeps, so that it makes no other call.
--
-- Loops. NodeWatcher runs for any given number of rounds, JobWatcher for one, and a server for any list of
-- ticks, each of which carries the order in which its round meets the pools or the jobs. A loop over a
-- ticker and a timeout makes as many attempts as a record Patience (of Aws or of JobScaling), or the
-- argument `ticks`, gives ticks before the timeout. verifyScaledNode runs on fuel;
-- Aws.Provider.rounds_needed is the retry threshold and one more, less the failures counted before,
-- which lets the count exceed the threshold. A slice that is changed while a loop ranges over it is its
-- array and its length.
--
-- Not modelled. Two threads at work at once: each operation of the registry holds its lock, a tick is
-- one step, the workers of a round take one name after another, and a pool is evaluated as if no node
-- were registered meanwhile, except in FindNodeByAddress, which asks for the registry at each tick. The
-- goroutines that JobWatcher starts are values. The requests CreateSession and ResignLeadership are
-- parameters, and the renewal of sessions is left out. So are the rest of the command line, the HTTP and
-- RPC servers and logging, which do input and output.
pub mod Agent
pub mod Aws
pub mod Base
pub mod Capacity
pub mod Command
pub mod Config
pub mod Discovery
pub mod Drain
pub mod Examples
pub mod Failsafe
pub mod Floats
pub mod Health
pub mod Helper
pub mod JobScaling
pub mod Leader
pub mod Notify
pub mod Policies
pub mod Polling
pub mod Registry
pub mod Scaling
pub mod Server
pub mod State
pub mod Structs
pub mod World
