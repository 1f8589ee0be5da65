-- ===== src/Program/Tests.antt =====
-- A Snow task with the settings of the program, and a Kafka task that they override.
use descartes_legacy.Prelude.{◌≡◌, refl, [], ◌∷◌}
use descartes_legacy.Prelude.Map.{insert, index, lookup, copy_into}
use descartes_legacy.Base.Consts
use descartes_legacy.Base.Data.{BaseConfig}
use descartes_legacy.Program.{snow_task, kafka_task, merge}

abbrev settings : BaseConfig
settings = (Consts.kafka_brokers, "b:9092") ∷ []

abbrev task : BaseConfig
task = (Consts.app, "snow") ∷ (Consts.metric, "incident") ∷ []

brokers_set : index Consts.kafka_brokers (snow_task settings task) ≡ "b:9092"
unfolding snow_task index lookup insert copy_into
brokers_set = refl

empty_key : index Consts.task_config_key (kafka_task settings task) ≡ ""
unfolding kafka_task index lookup insert copy_into
empty_key = refl

last_wins : merge (("a", ("k", "1") ∷ []) ∷ ("b", ("k", "2") ∷ []) ∷ []) [] ≡ ("k", "2") ∷ []
unfolding merge copy_into insert
last_wins = refl
