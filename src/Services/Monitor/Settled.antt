-- ===== src/Services/Monitor/Settled.antt =====
-- A second check of services/kafka_topic_monitor.go with the same answer finds nothing to do.
use descartes_legacy.Prelude.{
  ◌≡◌, ◌⊎◌, refl, ◌∙◌, ap, String, true, Option, none, some, List, [], ◌∷◌, arith, Bool-cases, inl,
  inr, All, All-map,
}
use descartes_legacy.Prelude.Int.{ℤ}
use descartes_legacy.Prelude.Map.{has-insert, lookup, has}
use descartes_legacy.Base.Data.{BaseConfig}
use descartes_legacy.Base.Scheduler.Tree.{OrderedTree}
use descartes_legacy.Services.Schedule.{Moment}
use descartes_legacy.Services.Monitor.{
  Partitions, ids_of, is_known, with_topic, set_known, partition_config, KafkaMetaDataMonitor,
  add_partition_job, handle_new_partition, mark, check_partition, check_partitions,
  check_new_topic_partitions,
}
use descartes_legacy.Services.Monitor.Known.{
  has-with_topic, has-with_topic_same, is_known-with_topic, is_known-set_known, set_known_lem,
}

module _ (tree : OrderedTree) where
  -- The partition has a job, or gets none as long as the registered topics stay the same.
  record IsSettled (mon : KafkaMetaDataMonitor tree) (topic : String) (id : ℤ) : Type 0 where
    present : has topic mon.topic_partitions ≡ true
    done :
        (is_known topic id mon.topic_partitions ≡ true)
        ⊎ (partition_config topic id mon.topic_configs ≡ none)

  abbrev Keeps : KafkaMetaDataMonitor tree → KafkaMetaDataMonitor tree → Type 0
  Keeps mon mon' = (t : String) (id : ℤ) → IsSettled mon t id → IsSettled mon' t id

  settled_same :
      (mon : KafkaMetaDataMonitor tree) (topic : String) (id : ℤ) (at : Moment tree)
      → IsSettled mon topic id
      → check_partition tree at topic id mon ≡ mon
  unfolding check_partition with_topic handle_new_partition
  settled_same mon topic id at s = rw (s.present) (elim s.done [
    | inl k ↦ rw k refl
    | inr c ↦ elim (Bool-cases (is_known topic id mon.topic_partitions)) [
      | inl k ↦ rw k refl
      | inr k ↦ rw (k, c) refl
    ]
  ])

  Keeps-with_topic :
      (mon : KafkaMetaDataMonitor tree) (topic : String)
      → Keeps mon (record mon { topic_partitions = with_topic topic mon.topic_partitions })
  Keeps-with_topic mon topic t id s = record {
    present = has-with_topic topic t mon.topic_partitions s.present;
    done = elim s.done [
      | inl k ↦ inl (is_known-with_topic topic t id mon.topic_partitions k)
      | inr c ↦ inr c
    ];
  }

  has-set_known :
      (t k : String) (id : ℤ) (m : Partitions) → has k m ≡ true → has k (set_known t id m) ≡ true
  unfolding set_known
  has-set_known t k id m h = has-insert t k (id ∷ ids_of (lookup t m)) m ∙ ground (arith, h)

  Keeps-mark :
      (mon : KafkaMetaDataMonitor tree) (at : Moment tree) (topic : String) (i : ℤ)
      (c : Option BaseConfig)
      → Keeps mon (mark tree topic i (add_partition_job tree at c mon))
  Keeps-mark mon at topic i none t id s = s
  Keeps-mark mon at topic i (some c) t id s = record {
    present = has-set_known topic t i mon.topic_partitions s.present;
    done = elim s.done [
      | inl k ↦ inl (is_known-set_known topic t i id mon.topic_partitions k)
      | inr n ↦ inr n
    ];
  }

  check_partition-Keeps :
      (mon : KafkaMetaDataMonitor tree) (at : Moment tree) (topic : String) (i : ℤ)
      → Keeps mon (check_partition tree at topic i mon)
  unfolding check_partition handle_new_partition
  check_partition-Keeps mon at topic i t id s =
      let mon' : KafkaMetaDataMonitor tree = record mon {
        topic_partitions = with_topic topic mon.topic_partitions;
      } in
      let s' = Keeps-with_topic mon topic t id s in
      elim (Bool-cases (is_known topic i (with_topic topic mon.topic_partitions))) [
        | inl k ↦ rw k s'
        | inr k ↦
            rw k (Keeps-mark mon' at topic i (partition_config topic i mon.topic_configs) t id s')
      ]

  mark-IsSettled :
      (mon : KafkaMetaDataMonitor tree) (at : Moment tree) (topic : String) (i : ℤ)
      (c : Option BaseConfig)
      → partition_config topic i mon.topic_configs ≡ c
      → has topic mon.topic_partitions ≡ true
      → IsSettled (mark tree topic i (add_partition_job tree at c mon)) topic i
  mark-IsSettled mon at topic i none e h = record { present = h; done = inr e }
  mark-IsSettled mon at topic i (some c) e h = record {
    present = has-set_known topic topic i mon.topic_partitions h;
    done = inl (set_known_lem topic i mon.topic_partitions);
  }

  check_partition-IsSettled :
      (mon : KafkaMetaDataMonitor tree) (at : Moment tree) (topic : String) (i : ℤ)
      → IsSettled (check_partition tree at topic i mon) topic i
  unfolding check_partition handle_new_partition
  check_partition-IsSettled mon at topic i =
      let mon' : KafkaMetaDataMonitor tree = record mon {
        topic_partitions = with_topic topic mon.topic_partitions;
      } in
      let h = has-with_topic_same topic mon.topic_partitions in
      elim (Bool-cases (is_known topic i (with_topic topic mon.topic_partitions))) [
        | inl k ↦ rw k (record { present = h; done = inl k })
        | inr k ↦
            rw k
              (mark-IsSettled mon' at topic i (partition_config topic i mon.topic_configs) refl h)
      ]

  check_partitions-Keeps :
      (at : String → ℤ → Moment tree) (topic : String) (ids : List ℤ)
      (mon : KafkaMetaDataMonitor tree)
      → Keeps mon (check_partitions tree at topic ids mon)
  unfolding check_partitions
  check_partitions-Keeps at topic [] mon t id s = s
  check_partitions-Keeps at topic (i ∷ ids) mon t id s =
      check_partitions-Keeps at topic ids (check_partition tree (at topic i) topic i mon) t id
        (check_partition-Keeps mon (at topic i) topic i t id s)

  check_partitions-IsSettled :
      (at : String → ℤ → Moment tree) (topic : String) (ids : List ℤ)
      (mon : KafkaMetaDataMonitor tree)
      → All (IsSettled (check_partitions tree at topic ids mon) topic) ids
  unfolding check_partitions
  check_partitions-IsSettled at topic [] mon = tt
  check_partitions-IsSettled at topic (i ∷ ids) mon =
      let mon' = check_partition tree (at topic i) topic i mon in
      (
        check_partitions-Keeps at topic ids mon' topic i
            (check_partition-IsSettled mon (at topic i) topic i),
        check_partitions-IsSettled at topic ids mon',
      )

  check-Keeps :
      (at : String → ℤ → Moment tree) (latest : Partitions) (mon : KafkaMetaDataMonitor tree)
      → Keeps mon (check_new_topic_partitions tree at latest mon)
  unfolding check_new_topic_partitions
  check-Keeps at [] mon t id s = s
  check-Keeps at ((topic, ids) ∷ latest) mon t id s =
      check-Keeps at latest (check_partitions tree at topic ids mon) t id
        (check_partitions-Keeps at topic ids mon t id s)

  abbrev AllSettled : KafkaMetaDataMonitor tree → String × List ℤ → Type 0
  AllSettled mon (topic, ids) = All (IsSettled mon topic) ids

  check-AllSettled :
      (at : String → ℤ → Moment tree) (latest : Partitions) (mon : KafkaMetaDataMonitor tree)
      → All (AllSettled (check_new_topic_partitions tree at latest mon)) latest
  unfolding check_new_topic_partitions
  check-AllSettled at [] mon = tt
  check-AllSettled at ((topic, ids) ∷ latest) mon =
      let mon' = check_partitions tree at topic ids mon in
      (
        All-map (λ id s. check-Keeps at latest mon' topic id s) ids
            (check_partitions-IsSettled at topic ids mon),
        check-AllSettled at latest mon',
      )

  partitions_same :
      (at : String → ℤ → Moment tree) (topic : String) (ids : List ℤ)
      (mon : KafkaMetaDataMonitor tree)
      → All (IsSettled mon topic) ids
      → check_partitions tree at topic ids mon ≡ mon
  unfolding check_partitions
  partitions_same at topic [] mon s = refl
  partitions_same at topic (i ∷ ids) mon s =
      ap (check_partitions tree at topic ids) (settled_same mon topic i (at topic i) s.0)
      ∙ partitions_same at topic ids mon s.1

  all_same :
      (at : String → ℤ → Moment tree) (latest : Partitions) (mon : KafkaMetaDataMonitor tree)
      → All (AllSettled mon) latest
      → check_new_topic_partitions tree at latest mon ≡ mon
  unfolding check_new_topic_partitions
  all_same at [] mon s = refl
  all_same at ((topic, ids) ∷ latest) mon s =
      ap (check_new_topic_partitions tree at latest) (partitions_same at topic ids mon s.0)
      ∙ all_same at latest mon s.1

  -- A check with the same answer as the one before changes nothing, and so schedules no partition
  -- a second time, at whatever times the two are made.
  pub check_new_topic_partitions_twice :
      (at at' : String → ℤ → Moment tree) (latest : Partitions) (mon : KafkaMetaDataMonitor tree)
      → check_new_topic_partitions tree at' latest (check_new_topic_partitions tree at latest mon)
        ≡ check_new_topic_partitions tree at latest mon
  check_new_topic_partitions_twice at at' latest mon =
      all_same at' latest (check_new_topic_partitions tree at latest mon)
        (check-AllSettled at latest mon)
