-- ===== src/Services/JobFactory/LongRun.antt =====
-- The claim of a long running task in services/job_factory.go.
use descartes_legacy.Prelude.{
  ◌≡◌, refl, sym, ap, String, Bool, true, false, none, some, Option, inl, inr, ◌⊎◌, str_eq, ◌*◌, [],
  ◌∷◌, subst,
}
use descartes_legacy.Prelude.Int.{ℤ, pos}
use descartes_legacy.Prelude.Text.{join}
use descartes_legacy.Base.Job.{call, new_job, reset_func}
use descartes_legacy.Prelude.Map.{index, insert}
use descartes_legacy.Prelude.Result.{Result, ok, err, Error, Outcome, done, panic}
use descartes_legacy.Base.Consts
use descartes_legacy.Base.Data.{BaseConfig}
use descartes_legacy.Services.JobFactory.{
  get_kafka_client, get_data_writer, second, Parts, JobFactory, ReaderJob, zookeeper_config,
}
use descartes_legacy.Services.JobFactory.Create.{
  checkpointer, kafka_reader, lift, and_then-some, Attempt, and_then, close_unless, claim, claimed,
  claim_free, task_node, kafka_job, do_new_kafka_job, make_job,
}

module _ (parts : Parts) where
  open parts use {E, Zk}

  -- The node did not exist, and was created, ephemeral, in the session of the client.
  pub record Claimed (zk : Zk) (node : String) (e : E) : Type 0 where
    pub asked : E
    pub created : E
    pub was_free : parts.node_exists zk node e ≡ (ok false, asked)
    pub is_created : parts.create_ephemeral zk node asked ≡ (none, created)

  claim_free-Claimed :
      (zk : Zk) (node : String) (p : Result Bool × E) (e : E) (f f' : JobFactory parts)
      → parts.node_exists zk node e ≡ p
      → claim_free parts zk node p f ≡ done (some tt, f')
      → Claimed zk node e
  claim_free-Claimed zk node (err m, e') e f f' h k = cc k
  claim_free-Claimed zk node (ok true, e') e f f' h k = cc k
  claim_free-Claimed zk node (ok false, e') e f f' h k =
      let (created, c) = claimed-done (parts.create_ephemeral zk node e') f f' k in
      record { asked = e'; created = created; was_free = h; is_created = c }
    where
      claimed-done :
          (p : Error × E) (f f' : JobFactory parts)
          → claimed parts p f ≡ done (some tt, f')
          → (created : E) × (p ≡ (none, created))
      claimed-done (none, e) f f' k = (e, refl)
      claimed-done (some m, e) f f' k = cc k

  -- What newKafkaJob has done for a long running task: with a job its node was claimed; without one
  -- there is no session, or the session that was opened has been closed last.
  unfoldable pub Settles :
      BaseConfig → JobFactory parts → Option (ReaderJob parts) → JobFactory parts → Type 0
  Settles config f (some job) f' =
      (zk : Zk) × (job.zk_client ≡ some zk)
      × ((parts.new_zookeeper_client config f.env).0 ≡ some zk)
      × Claimed zk (task_node parts (zookeeper_config config))
          (parts.new_zookeeper_client config f.env).1
  Settles config f none f' =
      ((parts.new_zookeeper_client config f.env).0 ≡ none)
      ⊎ ((zk : Zk) × (e : E) × ((parts.new_zookeeper_client config f.env).0 ≡ some zk)
          × (f'.env ≡ parts.close_zookeeper zk e))

  zk_client-make_job :
      (now interval : ℤ) (config : BaseConfig) (reader : parts.Reader) (zk : Option Zk)
      (f f' : JobFactory parts) (job : ReaderJob parts)
      → make_job parts now interval config reader zk f ≡ done (some job, f')
      → job.zk_client ≡ zk
  zk_client-make_job now interval config reader zk f f' job h =
      let made : record {
        job = reset_func (some call) (new_job none now interval config f.job_id).0;
        reader = reader;
        zk_client = zk;
      }
          ≡ job =
        cc h in
      sym (ap (λ x. x.zk_client) made)

  -- The rest of newKafkaJob with the checkpointer, from the writer on, and from the client on.
  abbrev with_checkpoint :
      ℤ
      → Option Zk
      → parts.Client
      → parts.Writer
      → Option parts.Checkpoint × BaseConfig
      → Attempt parts (ReaderJob parts)
  with_checkpoint now zk client writer x f =
      and_then parts (kafka_reader parts client x.1 writer x.0 f)
        (λ reader. make_job parts now (pos (15 * second)) x.1 reader zk)

  abbrev with_writer :
      ℤ → BaseConfig → Option Zk → parts.Client → parts.Writer → Attempt parts (ReaderJob parts)
  with_writer now config zk client writer f =
      let key_parts =
        "" ∷ index Consts.kafka_topic config ∷ index Consts.kafka_partition config ∷ [] in
      and_then parts (checkpointer parts (insert Consts.key (join "/" key_parts) config) f)
        (with_checkpoint now zk client writer)

  abbrev with_client : ℤ → BaseConfig → Option Zk → parts.Client → Attempt parts (ReaderJob parts)
  with_client now config zk client f =
      and_then parts (lift parts (get_data_writer parts config) f)
        (with_writer now config zk client)

  zk_client-kafka_job :
      (now : ℤ) (config : BaseConfig) (zk : Option Zk) (f f' : JobFactory parts)
      (job : ReaderJob parts)
      → kafka_job parts now config zk f ≡ done (some job, f')
      → job.zk_client ≡ zk
  unfolding kafka_job
  zk_client-kafka_job now config zk f f' job h =
      let (client, f₁, _, h₁) =
        and_then-some parts (done (get_kafka_client parts config f)) (with_client now config zk) job
          f' h in
      let (writer, f₂, _, h₂) =
        and_then-some parts (lift parts (get_data_writer parts config) f₁)
          (with_writer now config zk client) job f' h₁ in
      let key_parts =
        "" ∷ index Consts.kafka_topic config ∷ index Consts.kafka_partition config ∷ [] in
      let (x, f₃, _, h₃) =
        and_then-some parts (checkpointer parts (insert Consts.key (join "/" key_parts) config) f₂)
          (with_checkpoint now zk client writer) job f' h₂ in
      let (reader, f₄, _, h₄) =
        and_then-some parts (kafka_reader parts client x.1 writer x.0 f₃)
          (λ r. make_job parts now (pos (15 * second)) x.1 r zk) job f' h₃ in
      zk_client-make_job now (pos (15 * second)) x.1 reader zk f₄ f' job h₄

  closed :
      (zk : Zk) (m : Outcome (Option (ReaderJob parts) × JobFactory parts)) (f' : JobFactory parts)
      → close_unless parts zk m ≡ done (none, f')
      → (e : E) × (f'.env ≡ parts.close_zookeeper zk e)
  closed zk (panic m) f' h = cc h
  closed zk (done (none, f)) f' h =
      let same : record f { env = parts.close_zookeeper zk f.env } ≡ f' = cc h in
      (f.env, rw (← same) refl)
  closed zk (done (some job, f)) f' h = cc h

  not_closed :
      (zk : Zk) (m : Outcome (Option (ReaderJob parts) × JobFactory parts)) (job : ReaderJob parts)
      (f' : JobFactory parts)
      → close_unless parts zk m ≡ done (some job, f')
      → m ≡ done (some job, f')
  not_closed zk (panic m) job f' h = cc h
  not_closed zk (done (none, f)) job f' h = cc h
  not_closed zk (done (some job', f)) job f' h = h

  -- The task after its session was opened.
  attempt_in : ℤ → BaseConfig → Zk → Attempt parts (ReaderJob parts)
  attempt_in now config zk g =
      and_then parts (claim parts zk (task_node parts config) g)
        (λ _. kafka_job parts now config (some zk))

  opened-Settles :
      (now : ℤ) (config : BaseConfig) (f f' : JobFactory parts) (zk : Zk) (e : E)
      (r : Option (ReaderJob parts))
      → (parts.new_zookeeper_client config f.env) ≡ (some zk, e)
      → close_unless parts zk (attempt_in now (zookeeper_config config) zk (record f { env = e }))
        ≡ done (r, f')
      → Settles config f r f'
  unfolding Settles attempt_in
  opened-Settles now config f f' zk e none o h =
      let (e', c) =
        closed zk (attempt_in now (zookeeper_config config) zk (record f { env = e })) f' h in
      inr (zk, e', ap (λ x. x.0) o, c)
  opened-Settles now config f f' zk e (some job) o h =
      let k =
        not_closed zk (attempt_in now (zookeeper_config config) zk (record f { env = e })) job f'
          h in
      let (u, g, c, end) =
        and_then-some parts
          (claim parts zk (task_node parts (zookeeper_config config)) (record f { env = e }))
          (λ _. kafka_job parts now (zookeeper_config config) (some zk)) job f' k in
      (
        zk,
        zk_client-kafka_job now (zookeeper_config config) (some zk) g f' job end,
        ap (λ x. x.0) o,
        subst (Claimed zk (task_node parts (zookeeper_config config))) (sym (ap (λ x. x.1) o)) (
            claim_free-Claimed zk (task_node parts (zookeeper_config config))
              (parts.node_exists zk (task_node parts (zookeeper_config config)) e) e
              (record f { env = e }) g refl c),
      )

  session-Settles :
      (now : ℤ) (config : BaseConfig) (f f' : JobFactory parts) (p : Option Zk × E)
      (r : Option (ReaderJob parts))
      → parts.new_zookeeper_client config f.env ≡ p
      → and_then parts
          (done (p.0, record f { env = p.1 }))
          (λ zk g. close_unless parts zk (attempt_in now (zookeeper_config config) zk g))
        ≡ done (r, f')
      → Settles config f r f'
  unfolding Settles
  session-Settles now config f f' (none, e) none o h = inl (ap (λ x. x.0) o)
  session-Settles now config f f' (none, e) (some job) o h = cc h
  session-Settles now config f f' (some zk, e) r o h = opened-Settles now config f f' zk e r o h

  -- A call of newKafkaJob for a long running task that returns, returns a job only if it found the
  -- task's node missing and created it, ephemeral, in the session that the job holds; and if it
  -- returns nil, then it opened no session, or it closed the session last.
  pub do_new_kafka_job-Settles :
      (now : ℤ) (config : BaseConfig) (f f' : JobFactory parts) (r : Option (ReaderJob parts))
      → str_eq (index Consts.long_run config) "" ≡ false
      → do_new_kafka_job parts now config f ≡ done (r, f')
      → Settles config f r f'
  unfolding do_new_kafka_job attempt_in
  do_new_kafka_job-Settles now config f f' r long h =
      session-Settles now config f f' (parts.new_zookeeper_client config f.env) r refl
        (rw (long, do_new_kafka_job) at h)
