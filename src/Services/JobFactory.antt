-- ===== src/Services/JobFactory.antt =====
-- The job factory of services/job_factory.go. What the constructors of the other packages make is a
-- parameter, `E` being the state of the systems behind them; a config is a shared map, so what a
-- constructor adds to it is there afterwards.
pub mod Create
pub mod Clients
pub mod LongRun
mod Tests
use Prim.Native.String.{◌++◌ as append}
use descartes_legacy.Prelude.{
  ℕ, ◌+◌, ◌*◌, ◌-◌, String, Bool, true, false, not, ◌&&◌, ◌||◌, Option, none, some, List, [], ◌∷◌,
  if◌then◌else◌, str_eq, map,
}
use descartes_legacy.Prelude.Int.{ℤ, pos, negsuc, int64}
use descartes_legacy.Prelude.Map.{Map, lookup, has, index, insert}
use descartes_legacy.Prelude.Text.{split, join}
use descartes_legacy.Prelude.Sort.{sort_strings}
use descartes_legacy.Prelude.Decimal.{parse_int64}
use descartes_legacy.Prelude.Result.{Result, ok, err, Error, Outcome, done, panic}
use descartes_legacy.Base.Consts
use descartes_legacy.Base.Data.{BaseConfig}
use descartes_legacy.Base.Job.{BaseJob, call, new_job, reset_func}
use descartes_legacy.Base.ZooKeeper.{configured, long_run_task_root}
use descartes_legacy.Services.Topic.{encode_url}
use descartes_legacy.Sources.Snow.Reader.{required, has_all}

-- The constructors that the factory calls: nil is `none`.
pub record Parts : Type 1 where
  pub E : Type 0
  pub Client : Type 0
  pub Zk : Type 0
  pub Writer : Type 0
  pub Checkpoint : Type 0
  pub Reader : Type 0
  pub new_kafka_client : BaseConfig → E → Option Client × E
  pub close_client : Client → E → E
  pub new_zookeeper_client : BaseConfig → E → Option Zk × E
  pub node_exists : Zk → String → E → Result Bool × E
  -- CreateNode(node, nil, true, false)
  pub create_ephemeral : Zk → String → E → Error × E
  pub close_zookeeper : Zk → E → E
  pub new_zookeeper_checkpointer : BaseConfig → E → Option Checkpoint × E
  pub new_cassandra_checkpointer : BaseConfig → E → Option Checkpoint × E
  pub new_kafka_checkpointer : Client → E → Option Checkpoint × E
  pub new_file_checkpointer : Checkpoint
  pub new_kafka_data_writer : BaseConfig → E → Option Writer × E
  pub new_splunk_data_writer : BaseConfig → E → Option Writer × E
  pub start_reader : Reader → E → E
  pub stop_reader : Reader → E → E
  -- The checkpointer may be a nil pointer, `none`, on which a constructor may panic.
  pub new_snow_data_reader :
      BaseConfig → Writer → Option Checkpoint → E → Outcome (Option Reader × E)
  pub new_kafka_data_reader :
      Client → BaseConfig → Writer → Option Checkpoint → E → Outcome (Option Reader × E)

-- The config after NewZooKeeperClient put its defaults in.
abbrev pub zookeeper_config : BaseConfig → BaseConfig
zookeeper_config config = or_same (configured config)
  where
    or_same : Option BaseConfig → BaseConfig
    or_same none = config
    or_same (some c) = c

-- A `base.Checkpointer`: nil, or one that holds a pointer, which may be nil itself.
abbrev pub Interface : Type 0 → Type 0
Interface A = Option (Option A)

-- The functions that the constructor of the factory registers.
pub data JobCreationHandler : Type 0 where
  new_snow_job : JobCreationHandler
  new_kafka_job : JobCreationHandler

abbrev pub second : ℕ
second = 1000000000

module _ (parts : Parts) where
  open parts use {E, Client, Zk, Writer, Checkpoint, Reader}

  pub record ReaderJob : Type 0 where
    pub job : BaseJob
    pub reader : Reader
    pub zk_client : Option Zk

  -- `job_id` is the counter of base/job.go.
  pub record JobFactory : Type 0 where
    pub creation_tbl : Map JobCreationHandler
    pub clients : Map Client
    pub job_id : ℤ
    pub env : E

  -- RegisterJobCreationHandler
  unfoldable pub register_job_creation_handler :
      String → JobCreationHandler → JobFactory → JobFactory
  register_job_creation_handler app handler f = record f {
    creation_tbl = insert app handler f.creation_tbl;
  }

  -- NewJobFactory
  unfoldable pub new_job_factory : ℤ → E → JobFactory
  unfolding register_job_creation_handler
  new_job_factory job_id e = register_job_creation_handler Consts.kafka_app new_kafka_job (
      register_job_creation_handler "snow" new_snow_job
        (record { creation_tbl = []; clients = []; job_id = job_id; env = e }))

  -- Apps
  unfoldable pub apps : JobFactory → List String
  apps f = map (λ (x : String × JobCreationHandler). x.0) f.creation_tbl

  -- The kind "kafka" of createCheckpointer: both nil results are nil interfaces.
  abbrev pub not_nil : BaseConfig → Option Checkpoint × E → Interface Checkpoint × BaseConfig × E
  not_nil config (none, e) = (none, config, e)
  not_nil config (some c, e) = (some (some c), config, e)

  abbrev pub kafka_checkpointer :
      BaseConfig → Option Client × E → Interface Checkpoint × BaseConfig × E
  kafka_checkpointer config (none, e) = (none, config, e)
  kafka_checkpointer config (some client, e) =
      not_nil config (parts.new_kafka_checkpointer client e)

  -- createCheckpointer, with the config as it leaves it. A nil of NewZooKeeperCheckpointer or
  -- NewCassandraCheckpointer becomes an interface that is not nil.
  unfoldable pub create_checkpointer : BaseConfig → E → Interface Checkpoint × BaseConfig × E
  create_checkpointer config e =
      let kind = index Consts.checkpoint_method config in
      if str_eq kind "cassandra"
      then (let (c, e') = parts.new_cassandra_checkpointer config e in (some c, config, e'))
      else if str_eq kind "kafka"
      then kafka_checkpointer config (parts.new_kafka_client config e)
      else if str_eq kind "localfile"
      then (some (some parts.new_file_checkpointer), config, e)
      else (let (c, e') = parts.new_zookeeper_checkpointer config e in
          (some c, zookeeper_config config, e'))

  abbrev pub sorted_brokers : BaseConfig → String
  sorted_brokers config = join ";" (sort_strings (split b';' (index Consts.kafka_brokers config)))

  -- getKafkaClient where no client is cached.
  abbrev pub cache_client : String → Option Client × E → JobFactory → Option Client × JobFactory
  cache_client brokers (none, e) f = (none, record f { env = e })
  cache_client brokers (some c, e) f =
      (some c, record f { clients = insert brokers c f.clients; env = e })

  -- getKafkaClient
  unfoldable pub get_kafka_client : BaseConfig → JobFactory → Option Client × JobFactory
  get_kafka_client config f = elim (lookup (sorted_brokers config) f.clients) [
    | some c ↦ (some c, f)
    | none ↦ cache_client (sorted_brokers config) (parts.new_kafka_client config f.env) f
  ]

  close_all : Map Client → E → E
  close_all [] e = e
  close_all ((k, c) ∷ rest) e = close_all rest (parts.close_client c e)

  -- CloseClients
  unfoldable pub close_clients : JobFactory → JobFactory
  unfolding close_all
  close_clients f = record f { env = close_all f.clients f.env }

  -- getDataWriter
  unfoldable pub get_data_writer : BaseConfig → E → Option Writer × E
  get_data_writer config e =
      let kind = index Consts.target_system_type config in
      if str_eq kind Consts.splunk then parts.new_splunk_data_writer config e else (none, e)

  -- ReaderJob.Start
  unfoldable pub start : ReaderJob → E → E
  start job e = parts.start_reader job.reader e

  -- ReaderJob.Stop
  unfoldable pub stop : ReaderJob → E → E
  stop job e =
      let e' = parts.stop_reader job.reader e in
      elim job.zk_client [ none ↦ e' | some zk ↦ parts.close_zookeeper zk e' ]
