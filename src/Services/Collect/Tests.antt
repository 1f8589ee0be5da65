-- ===== src/Services/Collect/Tests.antt =====
-- A collector on the host `h`, whose jobs are numbers; each task comes as its app.
use descartes_legacy.Prelude.{ℕ, suc, ◌≡◌, refl, String, List, [], ◌∷◌, ◌++◌, some}
use descartes_legacy.Prelude.Int.{pos}
use descartes_legacy.Prelude.Map.{Map, lookup, has, insert, index}
use descartes_legacy.Prelude.Result.{Result, ok}
use descartes_legacy.Base.Consts
use descartes_legacy.Base.Data.{Data, Bytes, BaseConfig}
use descartes_legacy.Services.Collect.{
  JobFactory, CollectService, handle_tasks, handle_loop, run_task,
}
use descartes_legacy.Prelude.Text.{join}
use descartes_legacy.Prelude.Decimal.{format_int}
use descartes_legacy.Services.Collect.Heartbeats.{tick, stats_text}
use descartes_legacy.Services.Collect.Started.{IsStarted, handle_tasks-IsStarted}
use descartes_legacy.Services.Collect.Foreign.{handle_tasks_foreign}

abbrev counting : JobFactory
counting = record { F = ℕ; J = ℕ; create_job = λ app config n. (some n, suc n) }

abbrev unmarshal : Bytes → Result BaseConfig
unmarshal raw = ok ((Consts.app, raw) ∷ (Consts.task_config_key, "k") ∷ [])

abbrev collector : CollectService counting unmarshal
collector = record { host = "h"; jobs = []; job_factory = 0; started = []; called = [] }

abbrev tasks_for : String → Data
tasks_for host = record {
  meta_info = (Consts.host, host) ∷ [];
  raw_data = "snow" ∷ "snow" ∷ Consts.kafka_app ∷ [];
}

-- The second task of the snow app uses the cached job, and the Kafka task replaces it.
three_calls : (handle_tasks counting unmarshal (tasks_for "h") collector).called ≡ 0 ∷ 0 ∷ 1 ∷ []
unfolding handle_tasks handle_loop run_task has lookup insert index
three_calls = refl

empty-IsStarted : IsStarted counting unmarshal collector
unfolding lookup
empty-IsStarted = record { table = λ k j e. absurd (cc e); calls = tt }

handle_tasks-IsStarted_example :
    IsStarted counting unmarshal (handle_tasks counting unmarshal (tasks_for "h") collector)
handle_tasks-IsStarted_example =
    handle_tasks-IsStarted counting unmarshal (tasks_for "h") collector empty-IsStarted

handle_tasks_foreign_example :
    handle_tasks counting unmarshal (tasks_for "other") collector ≡ collector
unfolding index lookup
handle_tasks_foreign_example =
    handle_tasks_foreign counting unmarshal (tasks_for "other") collector refl refl

-- The stats of two apps at a tick, as reportStatus writes them.
abbrev texts : String → Map String → List Bytes → List Bytes
texts app stats l = l ++ stats_text stats ∷ []

beats :
    tick texts (pos 5) ("snow" ∷ "kafka" ∷ []) ((Consts.app, "") ∷ []) []
    ≡ "App=snow,Timestamp=5" ∷ "App=kafka,Timestamp=5" ∷ []
unfolding tick stats_text insert join format_int
beats = refl
