-- ===== src/Program.antt =====
-- descartes.go and mgmt/task_config_writer.go: the configs of the program and of the tasks. The
-- files, the JSON codec and the writer are parameters; a map is iterated in the order of its
-- entries.
mod Tests
use Prim.Native.String.{◌++◌ as append}
use descartes_legacy.Prelude.{
  ◌≡◌, refl, ◌∙◌, sym, String, Option, none, some, List, [], ◌∷◌, ◌++◌, append-nil, map,
}
use descartes_legacy.Prelude.Map.{Map, insert, index, copy_into}
use descartes_legacy.Prelude.Result.{◌>>=◌, Result, ok, err, Error, Outcome, done, panic}
use descartes_legacy.Base.Consts
use descartes_legacy.Base.Data.{Bytes, BaseConfig, new_data, DataWriter}
use descartes_legacy.Services.Topic.{generate_topic}

pub record Files : Type 0 where
  pub read_file : String → Result Bytes
  pub unmarshal_configs : Bytes → Result (Map BaseConfig)
  pub unmarshal_tasks : Bytes → Result (Map (List BaseConfig))
  pub marshal : BaseConfig → Result Bytes

-- The two loops of getGlobalConfig.
unfoldable pub merge : Map BaseConfig → BaseConfig → BaseConfig
merge [] global = global
merge ((name, config) ∷ configs) global = merge configs (copy_into config global)

-- A Snow task with the settings of the program.
unfoldable pub snow_task : BaseConfig → BaseConfig → BaseConfig
snow_task global task =
    let topic =
      generate_topic (index Consts.app task) (index Consts.server_url task)
        (index Consts.username task) in
    let merged = copy_into global (insert Consts.kafka_topic topic task) in
    insert Consts.task_config_key
      (append (index Consts.kafka_topic merged) (append "_" (index Consts.metric merged)))
      (insert Consts.task_config_action Consts.task_config_new merged)

unfoldable pub kafka_task : BaseConfig → BaseConfig → BaseConfig
kafka_task global task =
    let topic =
      generate_topic "snow" (index "SourceServerURL" task) (index "SourceUsername" task) in
    insert Consts.task_config_key "" (
      insert Consts.task_config_action Consts.task_config_new
        (copy_into global (insert Consts.kafka_topic topic task)))

-- A loop over the tasks of a file.
unfoldable pub tasks_of : (BaseConfig → BaseConfig) → Map (List BaseConfig) → List BaseConfig
tasks_of prepare [] = []
tasks_of prepare ((name, tasks) ∷ rest) = map prepare tasks ++ tasks_of prepare rest

module _ (files : Files) where
  abbrev pub merged : Result (Map BaseConfig) → Result BaseConfig
  merged (ok configs) = ok (merge configs [])
  merged (err m) = err m

  -- getGlobalConfig
  unfoldable pub get_global_config : String → Result BaseConfig
  unfolding merge
  get_global_config file_name = elim (files.read_file file_name) [
    | err m ↦ err m
    | ok content ↦ merged (files.unmarshal_configs content)
  ]

  -- getTasks
  unfoldable pub get_tasks : String → Result (Map (List BaseConfig))
  get_tasks file_name = elim (files.read_file file_name) [
    | err m ↦ err m
    | ok content ↦ files.unmarshal_tasks content
  ]

  -- The loop of TaskConfigWriter.Write.
  unfoldable pub marshal_all : List BaseConfig → Result (List Bytes)
  marshal_all [] = ok []
  marshal_all (config ∷ configs) =
      let rest = marshal_all configs in
      do bytes ← files.marshal config; raw_data ← rest; ok (bytes ∷ raw_data)

  module _ (writer : DataWriter) where
    abbrev pub write_all : Result (List Bytes) → writer.Sink → Error × writer.Sink
    write_all (err m) w = (some m, w)
    write_all (ok raw_data) w = writer.write_data (new_data [] raw_data) w

    -- TaskConfigWriter.Write
    unfoldable pub write : List BaseConfig → writer.Sink → Error × writer.Sink
    unfolding marshal_all
    write configs w = write_all (marshal_all configs) w

    -- The config of the writer of the task configs.
    unfoldable pub writer_config : BaseConfig → BaseConfig
    writer_config global =
        insert Consts.key Consts.task_config
          (insert Consts.kafka_topic Consts.task_config (copy_into global []))

    abbrev pub write_tasks :
        BaseConfig
        → Result (Map (List BaseConfig))
        → Result (Map (List BaseConfig))
        → writer.Sink
        → writer.Sink
    write_tasks global (err m) kafka w = w
    write_tasks global (ok snow) (err m) w = w
    write_tasks global (ok snow) (ok kafka) w =
        (write (tasks_of (snow_task global) snow ++ tasks_of (kafka_task global) kafka) w).1

    -- writeTaskConfigs with the writer that NewTaskConfigWriter made; nil panics at its Start.
    unfoldable pub write_task_configs :
        BaseConfig → String → String → Option writer.Sink → Outcome writer.Sink
    unfolding get_tasks write
    write_task_configs global snow_file kafka_file none =
        panic "runtime error: invalid memory address or nil pointer dereference"
    write_task_configs global snow_file kafka_file (some w) =
        done (write_tasks global (get_tasks snow_file) (get_tasks kafka_file) w)
