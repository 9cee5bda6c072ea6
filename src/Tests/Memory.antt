-- ===== src/Tests/Memory.antt =====
-- The interfaces filled by plain functions, which shows that their laws can be met.
use redline.Base.{
  String, ◌≡◌, refl, ◌&&◌, Option, none, some, arith, str_eq, if◌then◌else◌, ℤ, Call, served,
  refused, lost,
}
use redline.Redis.{Hashes, Numbers}
use redline.Scheduler.Degraded.{Nomad}
use redline.Scheduler.State.{
  DeploymentState, ReadResult, read, read_failed, executed, DeploymentStateStore,
}

abbrev pub HashDb : Type 0
HashDb = String → String → Option String

abbrev pub hashes : Hashes
hashes = record {
  Db = HashDb;
  hget = λ d k f. d k f;
  hset = λ d k f v j g. if str_eq k j && str_eq f g then some v else d j g;
  hdel = λ d k f j g. if str_eq k j && str_eq f g then none else d j g;
  del = λ d k j g. if str_eq k j then none else d j g;
  hget-hset = λ d k f v j g. refl;
  hget-hdel = λ d k f j g. refl;
  hget-del = λ d k j g. refl;
}

abbrev pub StateTable : Type 0
StateTable = String → Option DeploymentState

abbrev pub to_read : Option DeploymentState → ReadResult
to_read none = read_failed
to_read (some d) = read d

abbrev pub read_state : Call → StateTable → String → ReadResult
read_state served s id = to_read (s id)
read_state _ s id = read_failed

abbrev pub written : Option DeploymentState → DeploymentState → Option DeploymentState
written none d = none
written (some _) d = some d

abbrev pub write_state : Call → StateTable → String → DeploymentState → StateTable
write_state c s id d j = if executed c && str_eq id j then written (s j) d else s j

pub read_state-found :
    (c : Call) (s : StateTable) (id : String) (d : DeploymentState)
    → read_state c s id ≡ read d
    → s id ≡ some d
read_state-found served s id d h = ground arith
read_state-found refused s id d h = cc
read_state-found lost s id d h = cc

pub read_state-served :
    (s : StateTable) (id : String)
    → read_state served s id ≡ elim (s id) [ none ↦ read_failed | some d ↦ read d ]
read_state-served s id = ground arith

pub write_state_lem :
    (c : Call) (s : StateTable) (id : String) (d : DeploymentState) (j : String)
    → write_state c s id d j
      ≡ (if executed c && str_eq id j then elim (s j) [ none ↦ none | some _ ↦ some d ] else s j)
write_state_lem c s id d j = ground arith

abbrev pub state_table : DeploymentStateStore
state_table = record {
  Store = StateTable;
  state_of = λ s id. s id;
  current_state = read_state;
  update_state = write_state;
  set_allocation_id = λ c s id alloc. s;
  current-state_of = read_state-served;
  current-read = read_state-found;
  state_of-update = write_state_lem;
  state_of-set_allocation = λ c s id alloc j. refl;
}

abbrev pub numbers : Numbers
numbers = record {
  Db = String → Option ℤ;
  get = λ d k. d k;
  set = λ d k v j. if str_eq k j then some v else d j;
  del = λ d k j. if str_eq k j then none else d j;
  get-set = λ d k v j. refl;
  get-del = λ d k j. refl;
}

abbrev pub JobTable : Type 0
JobTable = String → Option (Option String)

abbrev pub register_job : Call → JobTable → String → JobTable
register_job refused w id j = w j
register_job served w id j = if str_eq id j then some (some "pending") else w j
register_job lost w id j = if str_eq id j then some (some "pending") else w j

abbrev pub job_table : Nomad
job_table = record {
  World = JobTable;
  info = λ w id. w id;
  register = register_job;
  evaluation = λ w id. id;
  register-refused = λ w id. refl;
  register-lost = λ w id. refl;
  info-register = λ w id j. refl;
}
