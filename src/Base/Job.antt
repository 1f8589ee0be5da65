-- ===== src/Base/Job.antt =====
-- base/job.go: jobs, their order and their expiration.
pub mod Less
mod Tests
use descartes_legacy.Prelude.{ℕ, ◌+◌, String, Bool, true, false, Option, none, some, if◌then◌else◌}
use descartes_legacy.Prelude.Int.{ℤ, pos, negsuc, ◌+ℤ◌, int64, ltb_ℤ, eqb_ℤ}
use descartes_legacy.Prelude.Order.{str_ltb}
use descartes_legacy.Prelude.Decimal.{format_int}
use descartes_legacy.Prelude.Result.{Outcome, done, panic}
use descartes_legacy.Base.Data.{BaseConfig}

-- The functions that the services give to their jobs: ScheduleService.publishTaskToKafka, and
-- ReaderJob.call, which indexes the data of the job's reader.
pub data JobFunc : Type 0 where
  publish_task_to_kafka call : JobFunc

pub record BaseJob : Type 0 where
  -- nil is `none`.
  pub f : Option JobFunc
  pub when : ℤ
  pub interval : ℤ
  pub id : String
  pub params : BaseConfig

-- NewJob, with the counter jobId before and after.
unfoldable pub new_job : Option JobFunc → ℤ → ℤ → BaseConfig → ℤ → BaseJob × ℤ
new_job f when interval params job_id =
    let next = int64 (job_id +ℤ pos 1) in
    (
      record { f = f; when = when; interval = interval; id = format_int next; params = params },
      next,
    )

-- ResetFunc
unfoldable pub reset_func : Option JobFunc → BaseJob → BaseJob
reset_func f job = record job { f = f }

-- Less: by the expiration time, then by the id as a text.
unfoldable pub less : BaseJob → BaseJob → Bool
less job other =
    if ltb_ℤ job.when other.when
    then true
    else if eqb_ℤ job.when other.when
    then str_ltb job.id other.id
    else false

-- UpdateExpirationTime
unfoldable pub update_expiration_time : BaseJob → BaseJob
update_expiration_time job = record job { when = int64 (job.when +ℤ job.interval) }

-- SetIntialExpirationTime: a time that is set already is kept.
unfoldable pub set_intial_expiration_time : ℤ → BaseJob → BaseJob
set_intial_expiration_time when job =
    if eqb_ℤ job.when (pos 0) then record job { when = when } else job

-- Callback: the function that is called, with its argument; calling nil panics.
unfoldable pub callback : BaseJob → Outcome (JobFunc × BaseConfig)
callback job = elim job.f [ none ↦ panic "nil function" | some f ↦ done (f, job.params) ]
