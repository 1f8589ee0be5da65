-- ===== src/Base/Job/Tests.antt =====
-- Jobs on which the order of base/job.go is tried.
use descartes_legacy.Prelude.{◌≡◌, ◌≢◌, ◌⊎◌, refl, true, false, some, []}
use descartes_legacy.Prelude.Int.{ℤ, pos}
use descartes_legacy.Base.Job.{BaseJob, less, publish_task_to_kafka}
use descartes_legacy.Base.Job.Less.{less_strict_order}
use Prim.Native.String.{String}

abbrev one : String
one = "1"

abbrev two : String
two = "2"

abbrev job : ℤ → String → BaseJob
job when id = record {
  f = some publish_task_to_kafka;
  when = when;
  interval = pos 5;
  id = id;
  params = [];
}

later_id : less (job (pos 7) "10") (job (pos 7) "9") ≡ true
unfolding less
later_id = refl

less_strict_order_example :
    (less (job (pos 7) one) (job (pos 7) one) ≡ false)
    × (less (job (pos 7) one) (job (pos 7) two) ≡ true
        → less (job (pos 7) two) (job (pos 8) one) ≡ true
        → less (job (pos 7) one) (job (pos 8) one) ≡ true)
    × (one ≢ two
        → (less (job (pos 7) one) (job (pos 7) two) ≡ true)
          ⊎ (less (job (pos 7) two) (job (pos 7) one) ≡ true))
less_strict_order_example = less_strict_order (job (pos 7) one) (job (pos 7) two) (job (pos 8) one)
