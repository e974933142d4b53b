-- ===== src/Session/Tasks.antt =====
-- crates/openim-session/src/lib.rs: `TaskSupervisor` and `ListenerRegistry`. A `BTreeMap` is an
-- association list that is read out in the order of its keys.
use Prim.Native.Nat.{compare as compare_ℕ}
use Prim.Native.String.{compare}
use openim_sdk_core_rust.Base.{
  ℕ, ◌+◌, ◌%◌, ◌^◌, String, Bool, true, false, not, none, some, List, [], map, filter, length,
  is_empty as is_empty_list, if◌then◌else◌,
}
use openim_sdk_core_rust.Base.Keys.{nat_eq, string_eq}
use openim_sdk_core_rust.Base.HashMap
use openim_sdk_core_rust.Base.HashMap.{HashMap, contains_key}
use openim_sdk_core_rust.Base.Sort.{sort_by}
use openim_sdk_core_rust.Errors.{ok, ensure_not_empty}
use openim_sdk_core_rust.Action.{Action, lift, ◌>>◌}

pub record TaskInfo : Type 0 where
  pub name : String
  pub running : Bool

abbrev pub Tasks : Type 0
Tasks = HashMap String Bool

-- the entries in the order of a `BTreeMap`
abbrev pub in_order : Tasks → List (String × Bool)
in_order = sort_by (λ p q. compare p.0 q.0)

-- `get(name).copied().unwrap_or(false)`
unfoldable pub is_running : String → Tasks → Bool
is_running name tasks = elim (HashMap.get name tasks) [ none ↦ false | some running ↦ running ]

-- starts a task, and says whether it was not running
unfoldable pub start : String → Action Tasks Bool
start name = do
  lift (ensure_not_empty name "task_name")
  (λ tasks. (ok (not (is_running name tasks)), HashMap.insert name true tasks))

-- stops a task, and says whether it was running
unfoldable pub stop : String → Action Tasks Bool
stop name = do
  lift (ensure_not_empty name "task_name")
  (λ tasks.
      if is_running name tasks
      then (ok true, HashMap.insert name false tasks)
      else (ok false, tasks))

unfoldable pub stop_all : Tasks → List String × Tasks
stop_all tasks = (map (λ p. p.0) (filter (λ p. p.1) (in_order tasks)), [])

unfoldable pub task_infos : Tasks → List TaskInfo
task_infos tasks = map (λ p. record { name = p.0; running = p.1 }) (in_order tasks)

-- `next_id` is a `u64`; a callback is known by its identifier alone
pub record ListenerRegistry : Type 0 where
  pub next_id : ℕ
  pub listeners : HashMap ℕ (Unit {0})

abbrev pub new_registry : ListenerRegistry
new_registry = record { next_id = 0; listeners = [] }

unfoldable pub register : ListenerRegistry → ℕ × ListenerRegistry
register r =
    let listener_id = (r.next_id + 1) % 2 ^ 64 in
    (
      listener_id,
      record { next_id = listener_id; listeners = HashMap.insert listener_id tt r.listeners },
    )

unfoldable pub unregister : ℕ → ListenerRegistry → Bool × ListenerRegistry
unregister listener_id r = (
  contains_key listener_id r.listeners,
  record r { listeners = HashMap.remove listener_id r.listeners },
)

-- the identifiers that `emit` calls, in its order
unfoldable pub called : ListenerRegistry → List ℕ
called r = sort_by compare_ℕ (map (λ p. p.0) r.listeners)

unfoldable pub listener_count : ListenerRegistry → ℕ
listener_count r = length r.listeners

unfoldable pub no_listeners : ListenerRegistry → Bool
no_listeners r = is_empty_list r.listeners
