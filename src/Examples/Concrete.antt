-- ===== src/Examples/Concrete.antt =====
-- A world, a store, a cluster manager and numbers to run the code with.
use replicator.Base.{
  ℕ, suc, ◌*◌, ◌/◌, ◌+◌, String, Bool, true, false, Option, none, some, List, [], ◌∷◌, ltb, ◌==◌,
  string_eq, nat_eq, Result, ok, err, arith, refl, ◌≡◌, ◌⊎◌,
}
use replicator.Base.Dict.{Dict, lookup, insert, lookup-insert}
use replicator.Base.Int.{ℤ, pos, negsuc}
use replicator.Floats.{Floats, IsOrdered}
use replicator.Structs.{ScalingState, Node, WorkerPool, new_worker_pool, Time}
use replicator.World.{Consul, KvReply, absent, present, FailureMessage, Notifier}
use replicator.State.Laws.{IsFaithful}
use replicator.Capacity.{NomadCapacity, Allocation}
use replicator.Discovery.{NodeStub, NomadNodes, Decoders}

-- An encoded object.
pub data Bytes : Type 0 where
  state_bytes : ScalingState → Bytes
  config_bytes : Dict String String → Bytes

pub record World : Type 0 where
  pub clock : Time
  pub store : Dict String Bytes
  pub sent : List FailureMessage

abbrev pub new_world : World
new_world = record { clock = 1000; store = []; sent = [] }

abbrev pub reply_of : Option Bytes → KvReply Bytes
reply_of none = absent
reply_of (some b) = present b

abbrev pub decode_state : Bytes → ScalingState → ScalingState × Bool
decode_state (state_bytes s) t = (record s { scaling_direction = t.scaling_direction }, false)
decode_state (config_bytes m) t = (t, true)

abbrev pub consul : Consul World Bytes
consul = record {
  now = λ w. (w, w.clock);
  kv_get = λ k w. (w, reply_of (lookup k w.store));
  kv_put = λ k v w. (record w { store = insert k v w.store }, false);
  marshal = state_bytes;
  unmarshal = decode_state;
}

pub consul-IsFaithful : IsFaithful consul
consul-IsFaithful = record {
  get-put = λ k v w written. ground (arith, lookup-insert k k v w.store);
  unmarshal-marshal = λ s t. refl;
}

abbrev pub pager : Notifier World
pager = record {
  provider = "pager";
  send_notification = λ message w. record w { sent = message ∷ w.sent };
}

abbrev pub decode_config : Bytes → Result (Dict String String)
decode_config (state_bytes s) = err
decode_config (config_bytes m) = ok m

abbrev pub string_of : Option String → String
string_of none = ""
string_of (some s) = s

abbrev pub decoders : Decoders Bytes
decoders = record {
  unmarshal_map = decode_config;
  decode_pool = λ meta pool. ok (record pool {
    name = string_of (lookup "replicator_worker_pool" meta);
    provider_name = string_of (lookup "replicator_provider" meta);
    region = string_of (lookup "replicator_region" meta);
    scaling_enabled = true;
  });
  hash_pool = λ pool. ok 1;
  hash_nodes = λ nodes. ok 7;
}

abbrev pub meta : Dict String String
meta =
    ("replicator_enabled", "true")
    ∷ ("replicator_notification_uid", "uid")
    ∷ ("replicator_provider", "aws")
    ∷ ("replicator_region", "us-east-1")
    ∷ ("replicator_worker_pool", "web")
    ∷ []

abbrev pub node_of : String → Node
node_of id = record {
  id = id;
  status = "ready";
  drain = false;
  http_addr = "10.0.0.1:4646";
  ip_address = "10.0.0.1";
  meta = meta;
  cpu = pos 1000;
  memory_mb = pos 4000;
  disk_mb = pos 9000;
}

abbrev pub stub_of : String → NodeStub
stub_of id = record { id = id; status = "ready"; drain = false; modify_index = 5 }

abbrev pub nodes_api : NomadNodes World
nodes_api = record {
  list = λ wait w. (w, ok (stub_of "n1" ∷ stub_of "n2" ∷ [], suc wait));
  info = λ id w. (w, ok (node_of id));
  sleep = λ w. w;
}

abbrev pub pool_named : String → WorkerPool
pool_named name = record new_worker_pool {
  name = name;
  provider_name = "aws";
  region = "us-east-1";
  scaling_enabled = true;
}

-- Numbers rounded down; `none` is not a number.
abbrev pub lt_of : Option ℕ → Option ℕ → Bool
lt_of (some a) (some b) = ltb a b
lt_of _ _ = false

abbrev pub eq_of : Option ℕ → Option ℕ → Bool
eq_of (some a) (some b) = a == b
eq_of _ _ = false

abbrev pub add_of : Option ℕ → Option ℕ → Option ℕ
add_of (some a) (some b) = some (a + b)
add_of _ _ = none

abbrev pub div_of : Option ℕ → Option ℕ → Option ℕ
div_of (some a) (some (suc b)) = some (a / suc b)
div_of _ _ = none

abbrev pub of_ℤ : ℤ → Option ℕ
of_ℤ (pos a) = some a
of_ℤ (negsuc a) = none

abbrev pub percent : ℤ → ℤ → Option ℕ
percent (pos a) (pos (suc b)) = some ((100 * a) / suc b)
percent _ _ = none

abbrev pub numbers : Floats (Option ℕ)
numbers = record {
  zero = some 0;
  ninety = some 90;
  lt = lt_of;
  eq = eq_of;
  add = add_of;
  div = div_of;
  of_int = of_ℤ;
  percent_of = percent;
}

abbrev pub allocation_on : String → Allocation
allocation_on id = record {
  node_id = id;
  client_status = "running";
  desired_status = "run";
  cpu = pos 100;
  memory_mb = pos 200;
  disk_mb = pos 10;
}

abbrev pub capacity_api : NomadCapacity World
capacity_api = record {
  node_allocations = λ id w. (w, ok (allocation_on id ∷ []));
  job_allocations = λ job w. (w, ok (allocation_on "n1" ∷ []));
  job_tasks =
      λ job w. (w, ok ((record { cpu = pos 50; memory_mb = pos 60; disk_mb = pos 1 } ∷ []) ∷ []));
  node_address = λ id w. (w, ok "10.0.0.1");
}

lt_irrefl : (a : Option ℕ) → lt_of a a ≡ false
lt_irrefl none = refl
lt_irrefl (some a) = ground arith

lt_trans : (a b c : Option ℕ) → lt_of a b ≡ true → lt_of b c ≡ true → lt_of a c ≡ true
lt_trans none b c h k = absurd (ground arith)
lt_trans (some a) none c h k = absurd (ground arith)
lt_trans (some a) (some b) none h k = absurd (ground arith)
lt_trans (some a) (some b) (some c) h k = ground arith

lt_total :
    (a b : Option ℕ)
    → eq_of a a ≡ true
    → eq_of b b ≡ true
    → (lt_of a b ≡ true) ⊎ ((eq_of a b ≡ true) ⊎ (lt_of b a ≡ true))
lt_total none b h k = absurd (ground arith)
lt_total (some a) none h k = absurd (ground arith)
lt_total (some a) (some b) h k = ground arith

lt_eq : (a b c : Option ℕ) → lt_of a b ≡ true → eq_of b c ≡ true → lt_of a c ≡ true
lt_eq none b c h k = absurd (ground arith)
lt_eq (some a) none c h k = absurd (ground arith)
lt_eq (some a) (some b) none h k = absurd (ground arith)
lt_eq (some a) (some b) (some c) h k = ground arith

eq_lt : (a b c : Option ℕ) → eq_of a b ≡ true → lt_of b c ≡ true → lt_of a c ≡ true
eq_lt none b c h k = absurd (ground arith)
eq_lt (some a) none c h k = absurd (ground arith)
eq_lt (some a) (some b) none h k = absurd (ground arith)
eq_lt (some a) (some b) (some c) h k = ground arith

pub numbers-IsOrdered : IsOrdered numbers
numbers-IsOrdered = record {
  lt_irrefl = lt_irrefl;
  lt_trans = lt_trans;
  lt_total = lt_total;
  lt_eq = lt_eq;
  eq_lt = eq_lt;
}
