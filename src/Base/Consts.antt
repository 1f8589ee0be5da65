-- ===== src/Base/Consts.antt =====
-- base/consts.go: the keys and values of configurations.
use descartes_legacy.Prelude.{String}

abbrev pub app : String
app = "App"

abbrev pub broadcast : String
broadcast = "Broadcast"

abbrev pub cassandra_keyspace : String
cassandra_keyspace = "CassandraKeyspace"

abbrev pub cassandra_seeds : String
cassandra_seeds = "CassandraSeeds"

abbrev pub checkpoint_method : String
checkpoint_method = "CheckpointMethod"

abbrev pub checkpoint_dir : String
checkpoint_dir = "CheckpointDir"

abbrev pub checkpoint_key : String
checkpoint_key = "CheckpointKey"

abbrev pub checkpoint_namespace : String
checkpoint_namespace = "CheckpointNamespace"

abbrev pub checkpoint_partition : String
checkpoint_partition = "CheckpointPartition"

abbrev pub checkpoint_table : String
checkpoint_table = "CheckpointTable"

abbrev pub checkpoint_topic : String
checkpoint_topic = "CheckpointTopic"

abbrev pub cpu_count : String
cpu_count = "CpuCount"

abbrev pub flush_frequency : String
flush_frequency = "FlushFreqency"

abbrev pub heartbeat : String
heartbeat = "Heartbeat"

abbrev pub host : String
host = "Host"

abbrev pub host_regex : String
host_regex = "Host_regex"

abbrev pub index : String
index = "Index"

abbrev pub interval : String
interval = "Interval"

abbrev pub kafka_app : String
kafka_app = "kafka"

abbrev pub kafka_brokers : String
kafka_brokers = "KafkaBrokers"

abbrev pub kafka_consumer_group : String
kafka_consumer_group = "KafkaConsumerGroup"

abbrev pub kafka_partition : String
kafka_partition = "KafkaPartition"

abbrev pub kafka_topic : String
kafka_topic = "KafkaTopic"

abbrev pub kafka_zoo_keepers : String
kafka_zoo_keepers = "KafkaZooKeepers"

abbrev pub key : String
key = "Key"

abbrev pub long_run : String
long_run = "LongRun"

abbrev pub mem_alloc : String
mem_alloc = "MemAlloc"

abbrev pub metric : String
metric = "Metric"

abbrev pub password : String
password = "Password"

abbrev pub platform : String
platform = "Platform"

abbrev pub proxy_password : String
proxy_password = "ProxyPassword"

abbrev pub proxy_url : String
proxy_url = "ProxyURL"

abbrev pub proxy_username : String
proxy_username = "ProxyUsername"

abbrev pub require_acks : String
require_acks = "RequiredAcks"

abbrev pub server_url : String
server_url = "ServerURL"

abbrev pub source : String
source = "Source"

abbrev pub sourcetype : String
sourcetype = "Sourcetype"

abbrev pub splunk : String
splunk = "Splunk"

abbrev pub aws_s3 : String
aws_s3 = "AWSS3"

abbrev pub sync_write : String
sync_write = "SyncWrite"

abbrev pub sys_mem_alloc : String
sys_mem_alloc = "SysMemAlloc"

abbrev pub task_config : String
task_config = "_TaskConfigs_"

abbrev pub task_config_action : String
task_config_action = "TaskConfigAction"

abbrev pub task_config_delete : String
task_config_delete = "TaskConfigDelete"

abbrev pub task_config_key : String
task_config_key = "TaskConfigKey"

abbrev pub task_config_new : String
task_config_new = "TaskConfigNew"

abbrev pub task_config_update : String
task_config_update = "TaskConfigUpdate"

abbrev pub task_stats : String
task_stats = "TaskStats"

abbrev pub taskname : String
taskname = "Taskname"

abbrev pub tasks : String
tasks = "_Tasks_"

abbrev pub target_system : String
target_system = "TargetSystem"

abbrev pub target_system_type : String
target_system_type = "TargetSystemType"

abbrev pub timestamp : String
timestamp = "Timestamp"

abbrev pub totoal_mem_alloc : String
totoal_mem_alloc = "TotalMemAlloc"

abbrev pub use_offset_newest : String
use_offset_newest = "UseOffsetNewest"

abbrev pub use_offset_oldest : String
use_offset_oldest = "UseOffsetOldest"

abbrev pub username : String
username = "Username"

abbrev pub zoo_keeper_root : String
zoo_keeper_root = "ZooKeeperRoot"

abbrev pub zoo_keeper_election_root : String
zoo_keeper_election_root = "ZooKeeperElectionRoot"

abbrev pub zoo_keeper_heartbeat_root : String
zoo_keeper_heartbeat_root = "ZooKeeperHeartbeatRoot"

abbrev pub zoo_keeper_long_run_task : String
zoo_keeper_long_run_task = "ZooKeeperLongRunTask"

abbrev pub zoo_keeper_servers : String
zoo_keeper_servers = "ZooKeeperServers"
