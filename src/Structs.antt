-- ===== src/Structs.antt =====
-- The data of replicator/structs: scaling state, worker pools, the node registry, jobs, job policies and
-- cluster capacity. Mutexes are left out where the code that holds them is one step.
mod State
mod Pools
mod Policy
mod Capacity
mod Jobs
unfoldable pub use State.*
unfoldable pub use Pools.*
unfoldable pub use Policy.*
unfoldable pub use Capacity.*
unfoldable pub use Jobs.*
