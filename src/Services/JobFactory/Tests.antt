-- ===== src/Services/JobFactory/Tests.antt =====
-- A factory whose environment is the list of the nodes of ZooKeeper, which stops answering for the
-- checkpointers, and whose clients are the texts of their brokers.
use mathlib.Core.List.{Perm}
use mathlib.Core.List.Perm
use descartes_legacy.Prelude.{
  ◌≡◌, refl, String, Bool, false, none, some, List, [], ◌∷◌, str_eq, ◌||◌,
}
use descartes_legacy.Prelude.Int.{pos}
use descartes_legacy.Prelude.Map.{lookup, index, insert}
use descartes_legacy.Prelude.Text.{split, join}
use descartes_legacy.Prelude.Sort.{sort_strings}
use descartes_legacy.Prelude.Result.{ok, done, panic}
use descartes_legacy.Base.Consts
use descartes_legacy.Base.Data.{BaseConfig}
use descartes_legacy.Base.ZooKeeper.{configured}
use descartes_legacy.Services.JobFactory.{Parts, JobFactory, get_kafka_client, create_checkpointer}
use descartes_legacy.Services.JobFactory.Create.{do_new_snow_job, do_new_kafka_job}
use descartes_legacy.Services.JobFactory.Clients.{get_kafka_client-shares}
use descartes_legacy.Services.JobFactory.LongRun.{Settles, do_new_kafka_job-Settles}

abbrev is_node : String → List String → Bool
is_node n [] = false
is_node n (m ∷ ms) = str_eq n m || is_node n ms

abbrev nil_pointer : String
nil_pointer = "invalid memory address or nil pointer dereference"

abbrev parts : Parts
parts = record {
  E = List String;
  Client = String;
  Zk = Unit;
  Writer = Unit;
  Checkpoint = Unit;
  Reader = Unit;
  new_kafka_client = λ c e. (some (index Consts.kafka_brokers c), e);
  close_client = λ c e. e;
  new_zookeeper_client = λ c e. (some tt, e);
  node_exists = λ zk n e. (ok (is_node n e), e);
  create_ephemeral = λ zk n e. (none, n ∷ e);
  close_zookeeper = λ zk e. e;
  new_zookeeper_checkpointer = λ c e. (none, e);
  new_cassandra_checkpointer = λ c e. (none, e);
  new_kafka_checkpointer = λ c e. (some tt, e);
  new_file_checkpointer = tt;
  new_kafka_data_writer = λ c e. (some tt, e);
  new_splunk_data_writer = λ c e. (some tt, e);
  new_snow_data_reader =
      λ c w k e. elim k [ none ↦ panic nil_pointer | some _ ↦ done (some tt, e) ];
  start_reader = λ r e. e;
  stop_reader = λ r e. e;
  new_kafka_data_reader = λ k c w p e. done (some tt, e);
}

abbrev factory : JobFactory parts
factory = record { creation_tbl = []; clients = []; job_id = pos 0; env = [] }

abbrev with_client : JobFactory parts
with_client = record factory { clients = ("a:1;b:2", "b:2;a:1") ∷ [] }

abbrev brokers : String → BaseConfig
brokers s = (Consts.kafka_brokers, s) ∷ []

first_client : get_kafka_client parts (brokers "b:2;a:1") factory ≡ (some "b:2;a:1", with_client)
unfolding get_kafka_client lookup index insert join sort_strings split
first_client = refl

swapped :
    Perm
      (split b';' (index Consts.kafka_brokers (brokers "b:2;a:1")))
      (split b';' (index Consts.kafka_brokers (brokers "a:1;b:2")))
unfolding split index lookup
swapped = Perm.swap "a:1" "b:2" []

get_kafka_client-shares_example :
    get_kafka_client parts (brokers "a:1;b:2") with_client ≡ (some "b:2;a:1", with_client)
get_kafka_client-shares_example =
    get_kafka_client-shares parts (brokers "b:2;a:1") (brokers "a:1;b:2") factory with_client
      "b:2;a:1" first_client swapped

-- A long running task that another collector has claimed.
abbrev task : BaseConfig
task =
    (Consts.long_run, "1")
    ∷ (Consts.task_config_key, "t_0")
    ∷ (Consts.zoo_keeper_servers, "z:1")
    ∷ []

abbrev claimed_factory : JobFactory parts
claimed_factory = record factory { env = "/descartes/long_run_tasks/t_0" ∷ [] }

refused : do_new_kafka_job parts (pos 7) task claimed_factory ≡ done (none, claimed_factory)
unfolding do_new_kafka_job index lookup configured insert
refused = refl

is_long : str_eq (index Consts.long_run task) "" ≡ false
unfolding index lookup
is_long = refl

do_new_kafka_job-Settles_example : Settles parts task claimed_factory none claimed_factory
do_new_kafka_job-Settles_example =
    do_new_kafka_job-Settles parts (pos 7) task claimed_factory claimed_factory none is_long refused

-- A Snow task whose ZooKeeper cannot be reached.
abbrev snow_task : BaseConfig
snow_task =
    (Consts.server_url, "https://example.com")
    ∷ (Consts.username, "u")
    ∷ (Consts.password, "p")
    ∷ (Consts.metric, "incident")
    ∷ ("TimestampField", "at")
    ∷ ("NextRecordTime", "2015-01-01 00:00:00")
    ∷ ("RecordCount", "10")
    ∷ []

-- The nil pointer reaches the constructor of the reader, which dereferences it.
nil_checkpointer : do_new_snow_job parts (pos 7) snow_task factory ≡ panic nil_pointer
unfolding do_new_snow_job create_checkpointer index lookup insert configured join
nil_checkpointer = refl
