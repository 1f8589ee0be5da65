-- ===== src/Services/Publish/Tests.antt =====
-- A follower that drops the task that its job published, and stays one as the collectors change.
use descartes_legacy.Prelude.{◌≡◌, refl, true, false, List, [], ◌∷◌}
use descartes_legacy.Prelude.Int.{pos}
use descartes_legacy.Prelude.Map.{index, lookup}
use descartes_legacy.Prelude.Result.{Result, ok}
use descartes_legacy.Base.Consts
use descartes_legacy.Base.Data.{BaseConfig, Bytes}
use descartes_legacy.Sinks.Memory.{memory_writer, new_memory_data_writer}
use descartes_legacy.Services.Publish.Addressed.{Grows, run-Grows}
use descartes_legacy.Services.Publish.{
  Publisher, Event, publish, collectors, participants, take, run, run-silent,
}

abbrev marshal : BaseConfig → Result Bytes
marshal c = ok (index Consts.app c)

abbrev follower : Publisher marshal memory_writer
follower = record {
  config = [];
  is_leader = false;
  task_chan = [];
  live_collectors = [];
  sink = new_memory_data_writer;
}

abbrev events : List (Event marshal memory_writer)
events =
    collectors (ok ("a!snow" ∷ []))
    ∷ publish ((Consts.app, "snow") ∷ [])
    ∷ participants (ok false)
    ∷ take (pos 1) 7
    ∷ []

run-silent_example : (run marshal memory_writer follower events).sink ≡ new_memory_data_writer
run-silent_example =
    run-silent marshal memory_writer follower events refl (refl, (refl, (refl, (refl, tt))))

-- A leader, whose tasks all are of the app snow.
abbrev IsSnow : BaseConfig → Type 0
IsSnow c = index Consts.app c ≡ "snow"

abbrev leader : Publisher marshal memory_writer
leader = record follower { is_leader = true }

task-IsSnow : IsSnow ((Consts.app, "snow") ∷ [])
unfolding index lookup
task-IsSnow = refl

abbrev led : List (Event marshal memory_writer)
led = collectors (ok ("a!snow" ∷ [])) ∷ publish ((Consts.app, "snow") ∷ []) ∷ take (pos 1) 7 ∷ []

run-Grows_example : Grows marshal memory_writer IsSnow leader (run marshal memory_writer leader led)
run-Grows_example =
    run-Grows marshal memory_writer IsSnow leader led tt (tt, (task-IsSnow, (tt, tt)))
