-- ===== src/Services/Hosts.antt =====
-- The live collectors of services/schedule_service.go, and the nodes by which
-- services/collect_service.go announces them in ZooKeeper.
pub mod Live
mod Tests
use Prim.Native.String.{◌++◌ as append}
use descartes_legacy.Prelude.{
  ℕ, zero, suc, ◌%◌, String, Bool, true, false, Option, none, some, List, [], ◌∷◌, ◌++◌,
  if◌then◌else◌, str_eq, length, get_elem?,
}
use descartes_legacy.Prelude.Int.{ℤ, pos, negsuc, ◌-ℤ◌, int64, ltb_ℤ}
use descartes_legacy.Prelude.Map.{Map, lookup, has, insert, index}
use descartes_legacy.Prelude.Text.{split, has_prefix}
use descartes_legacy.Prelude.Decimal.{parsed_value, parse_int64, format_int}
use descartes_legacy.Prelude.Result.{Result, ok, err}
use descartes_legacy.Base.Consts
use descartes_legacy.Base.Data.{Bytes, BaseConfig}

-- liveCollectors: the heartbeats by host and app. A collector that ZooKeeper knows has none.
abbrev pub Collectors : Type 0
Collectors = Map (Map (Option BaseConfig))

abbrev pub or_nil : Option (Map (Option BaseConfig)) → Map (Option BaseConfig)
or_nil none = []
or_nil (some apps) = apps

-- The apps of a host; a missing host has the nil map.
unfoldable pub apps_of : String → Collectors → Map (Option BaseConfig)
apps_of host live = or_nil (lookup host live)

-- heartbeatThreadhold
abbrev pub heartbeat_threadhold : ℤ
heartbeat_threadhold = pos 12000000000

-- The name of a collector below the heartbeat root, as doHeartbeatsThroughZooKeeper creates it.
unfoldable pub node_name : String → String → String
node_name host app = append host (append "!" app)

-- newLivings[host][app] = heartbeat, with the map of the host made first.
unfoldable pub put : String → String → Option BaseConfig → Collectors → Collectors
unfolding apps_of
put host app heartbeat live = insert host (insert app heartbeat (apps_of host live)) live

-- One round of the loop of refreshRegisteredCollectors, after the split.
unfoldable pub add_parts : List String → Collectors → Collectors
unfolding put
add_parts (host ∷ app ∷ []) live = put host app none live
add_parts _ live = live

unfoldable pub add_collectors : List String → Collectors → Collectors
unfolding add_parts
add_collectors [] live = live
add_collectors (node ∷ nodes) live = add_collectors nodes (add_parts (split b'!' node) live)

-- refreshRegisteredCollectors, by what Children answered: the new map replaces the old one, and
-- is empty after an error.
unfoldable pub refresh_registered_collectors : Result (List String) → Collectors
unfolding add_collectors
refresh_registered_collectors (err _) = []
refresh_registered_collectors (ok nodes) = add_collectors nodes []

-- Whether a host has a live collector for an app: registered, or, with heartbeats through Kafka,
-- heard of recently.
unfoldable pub is_live : BaseConfig → ℤ → String → Map (Option BaseConfig) → Bool
unfolding parsed_value
is_live config now app apps = elim (lookup app apps) [
  | none ↦ false
  | some heartbeat ↦
      if str_eq (index Consts.heartbeat config) "kafka"
      then ltb_ℤ (int64 (now -ℤ last_time heartbeat)) heartbeat_threadhold
      else true
]
  where
    last_time : Option BaseConfig → ℤ
    last_time none = pos 0
    last_time (some c) = parsed_value (index Consts.timestamp c)

-- The loop of getAvailableGatheringHost, in the order of the iteration.
unfoldable pub available_hosts : BaseConfig → ℤ → String → Collectors → List String
unfolding is_live
available_hosts config now app [] = []
available_hosts config now app ((host, apps) ∷ live) =
    let rest = available_hosts config now app live in
    if is_live config now app apps then host ∷ rest else rest

-- The host with a random number, or the empty text.
unfoldable pub pick : ℕ → List String → String
pick r [] = ""
pick r (h ∷ hs) = elim (get_elem? (h ∷ hs) (r % length (h ∷ hs))) [ none ↦ "" | some x ↦ x ]

-- getAvailableGatheringHost
unfoldable pub get_available_gathering_host : BaseConfig → ℤ → ℕ → BaseConfig → Collectors → String
unfolding available_hosts pick
get_available_gathering_host config now r task live =
    pick r (available_hosts config now (index Consts.app task) live)

-- One heartbeat of handleTaskStats, decoded or not. Missing keys are only logged.
unfoldable pub handle_heartbeat : ℤ → Result BaseConfig → Collectors → Collectors
unfolding put
handle_heartbeat now (err _) live = live
handle_heartbeat now (ok c) live =
    let heartbeat = insert Consts.timestamp (format_int now) c in
    put (index Consts.host heartbeat) (index Consts.app heartbeat) (some heartbeat) live

-- handleTaskStats, with the times at which the heartbeats are handled.
unfoldable pub handle_task_stats :
    (Bytes → Result BaseConfig) → (ℕ → ℤ) → ℕ → List Bytes → Collectors → Collectors
unfolding handle_heartbeat
handle_task_stats unmarshal now i [] live = live
handle_task_stats unmarshal now i (raw ∷ raws) live =
    handle_task_stats unmarshal now (suc i) raws (handle_heartbeat (now i) (unmarshal raw) live)
