-- ===== src/Services/Collect/Heartbeats.antt =====
-- The heartbeats of a collector in services/collect_service.go: nodes of ZooKeeper, and data for
-- Kafka. The platform and the number of the CPUs are parameters; a map is iterated in the order of
-- its entries.
use Prim.Native.String.{◌++◌ as append}
use descartes_legacy.Prelude.{String, true, Option, none, some, List, [], ◌∷◌}
use descartes_legacy.Prelude.Int.{ℤ}
use descartes_legacy.Prelude.Map.{Map, insert}
use descartes_legacy.Prelude.Text.{join}
use descartes_legacy.Prelude.Decimal.{format_int}
use descartes_legacy.Prelude.Result.{Result, ok, err}
use descartes_legacy.Base.Consts
use descartes_legacy.Base.Data.{Bytes, Data, new_data, DataWriter}
use descartes_legacy.Base.ZooKeeper.{Conn, create_node, set_node, heartbeat_root}
use descartes_legacy.Services.Hosts.{node_name}

-- The stats of doHeartbeats before the first tick.
unfoldable pub initial_stats : String → String → String → Map String
initial_stats host platform cpus =
    (Consts.host, host)
    ∷ (Consts.platform, platform)
    ∷ (Consts.app, "")
    ∷ (Consts.cpu_count, cpus)
    ∷ (Consts.timestamp, "")
    ∷ []

-- The stats of an app at a tick.
unfoldable pub app_stats : ℤ → String → Map String → Map String
app_stats now app stats = insert Consts.app app (insert Consts.timestamp (format_int now) stats)

-- A tick of doHeartbeats, over the apps of the job factory.
unfoldable pub tick :
    {S : Type 0} → (String → Map String → S → S) → ℤ → List String → Map String → S → S
unfolding app_stats
tick f now [] stats s = s
tick f now (app ∷ apps) stats s =
    let stats' = app_stats now app stats in tick f now apps stats' (f app stats' s)

unfoldable pub heartbeat_path : String → String → String
heartbeat_path host app = append heartbeat_root (append "/" (node_name host app))

module _ (conn : Conn) (marshal : Map String → Result Bytes) where
  -- The first loop of doHeartbeatsThroughZooKeeper; errors are dropped.
  unfoldable pub announce : String → List String → conn.E → conn.E
  unfolding heartbeat_path
  announce host [] e = e
  announce host (app ∷ apps) e =
      announce host apps (create_node conn (heartbeat_path host app) none true true e).1

  -- A failed Marshal leaves nil data.
  abbrev pub raw_data : Result Bytes → Option Bytes
  raw_data (ok b) = some b
  raw_data (err _) = none

  -- The function of doHeartbeatsThroughZooKeeper.
  unfoldable pub beat : String → String → Map String → conn.E → conn.E
  unfolding heartbeat_path
  beat host app stats e = (set_node conn (heartbeat_path host app) (raw_data (marshal stats)) e).1

-- `k=v` of each entry, between commas.
unfoldable pub stats_text : Map String → Bytes
stats_text stats = join "," (pairs stats)
  where
    pairs : Map String → List String
    pairs [] = []
    pairs ((k, v) ∷ rest) = append k (append "=" v) ∷ pairs rest

unfoldable pub stats_data : String → Map String → Data
unfolding stats_text
stats_data host stats =
    new_data
      ((Consts.server_url, host)
        ∷ (Consts.app, Consts.kafka_app)
        ∷ (Consts.metric, "collector:stats")
        ∷ [])
      (stats_text stats ∷ [])

module _ (writer : DataWriter) where
  -- The function of reportStatus.
  unfoldable pub report : String → String → Map String → writer.Sink → writer.Sink
  unfolding stats_data
  report host app stats w = (writer.write_data (stats_data host stats) w).1
