-- ===== src/Structs/Jobs.antt =====
-- The jobs of Nomad with the fields that the program reads, and the deployments that scaling them
-- starts. Nomad sets every pointer of a job that it returns.
use replicator.Base.{String, Bool, List}
use replicator.Base.Dict.{Dict}
use replicator.Base.Int.{ℤ}

-- The resources of a task.
pub record JobTask : Type 0 where
  pub cpu : ℤ
  pub memory_mb : ℤ

-- `updates` says whether the group has an update stanza.
pub record TaskGroup : Type 0 where
  pub name : String
  pub count : ℤ
  pub updates : Bool
  pub meta : Dict String String
  pub tasks : List JobTask

pub record Job : Type 0 where
  pub id : String
  pub type : String
  pub status : String
  pub task_groups : List TaskGroup

-- A Go call that returns a value or an error with its text.
pub data Reply (A : Type 0) : Type 0 where
  value : A → Reply A
  error : String → Reply A
