-- ===== src/Base/Checkpointers/Cassandra.antt =====
-- base/cassandra_checkpointer.go: a checkpoint is a row of a table. The driver gocql is a parameter.
use Prim.Native.String.{◌++◌ as append}
use descartes_legacy.Prelude.{
  ℕ, ◌*◌, String, Bool, not, ◌||◌, ◌&&◌, Option, none, some, List, [], ◌∷◌, if◌then◌else◌, str_eq,
}
use descartes_legacy.Prelude.Int.{ℤ, pos}
use descartes_legacy.Prelude.Map.{index}
use descartes_legacy.Prelude.Text.{split, join, contains}
use descartes_legacy.Prelude.Decimal.{parse_int32}
use descartes_legacy.Prelude.Result.{Result, ok, err, Error}
use descartes_legacy.Base.Consts
use descartes_legacy.Base.Data.{Bytes, BaseConfig}

-- The values of gocql.Consistency that the code names.
pub data Consistency : Type 0 where
  one : Consistency
  quorum : Consistency

-- The fields of gocql.ClusterConfig that the code sets; the timeout is in nanoseconds.
pub record ClusterConfig : Type 0 where
  pub hosts : List String
  pub keyspace : String
  pub consistency : Consistency
  pub timeout : ℤ
  pub port : ℤ

-- What gocql offers: sessions of a cluster.
pub record Cassandra : Type 1 where
  pub E : Type 0
  pub Session : Type 0
  pub create_session : ClusterConfig → E → Result Session × E
  -- Query and Scan of one value, which may be null.
  pub scan : Session → String → String → E → Result (Option Bytes) × E
  -- Query and Exec.
  pub exec : Session → String → List String → E → Error × E
  pub close : Session → E → E

pub record CassandraCheckpointer : Type 0 where
  pub config : BaseConfig
  pub cluster : ClusterConfig

abbrev pub second : ℕ
second = 1000000000

-- The addresses of the seeds and the port of the last one, `ip:port` each; others are left out.
abbrev pub add_seed : List String → List String × String → List String × String
add_seed [] rest = rest
add_seed (ip ∷ []) rest = rest
add_seed (ip ∷ p ∷ ps) (ips, port) =
    let port' = join ":" (p ∷ ps) in
    if not (str_eq ip "") && not (str_eq port' "")
    then (ip ∷ ips, if str_eq port "" then port' else port)
    else (ips, port)

unfoldable pub seeds : List String → List String × String
seeds [] = ([], "")
seeds (s ∷ ss) = add_seed (split b':' s) (seeds ss)

abbrev pub is_missing : String → BaseConfig → Bool
is_missing k config = str_eq (index k config) ""

-- NewCassandraCheckpointer
unfoldable pub new_cassandra_checkpointer : BaseConfig → Option CassandraCheckpointer
unfolding seeds
new_cassandra_checkpointer config =
    if is_missing Consts.cassandra_seeds config
      || is_missing Consts.cassandra_keyspace config
      || is_missing Consts.checkpoint_table config
    then none
    else let (ips, port) = seeds (split b';' (index Consts.cassandra_seeds config)) in
      elim (parse_int32 port) [
        | err _ ↦ none
        | ok n ↦ some (record {
          config = config;
          cluster = record {
            hosts = ips;
            keyspace = index Consts.cassandra_keyspace config;
            consistency = one;
            timeout = pos (30 * second);
            port = n;
          };
        })
      ]

abbrev pub missing_key : String
missing_key = "Missing Key in the config"

abbrev pub select_statement : String → String
select_statement table = append "SELECT ckpt from " (append table " where key = ?")

abbrev pub insert_statement : String → String
insert_statement table = append "INSERT INTO " (append table " (key, ckpt) VALUES (?, ?)")

abbrev pub delete_statement : String → String
delete_statement table = append "DELETE FROM " (append table " WHERE key =  ?")

module _ (db : Cassandra) where
  open db use {E, Session}

  abbrev pub connect : CassandraCheckpointer → E → Result Session × E
  connect ck e = db.create_session ck.cluster e

  abbrev pub table : CassandraCheckpointer → String
  table ck = index Consts.checkpoint_table ck.config

  -- GetCheckpoint after Scan: no row is no checkpoint.
  abbrev pub found : Result (Option Bytes) → Result (Option Bytes)
  found (ok v) = ok v
  found (err m) = if contains m "not found" then ok none else err m

  abbrev pub get_in : String → String → Result Session × E → Result (Option Bytes) × E
  get_in t key (err m, e) = (err m, e)
  get_in t key (ok s, e) =
      let (r, e') = db.scan s (select_statement t) key e in (found r, db.close s e')

  -- GetCheckpoint
  unfoldable pub get_checkpoint : CassandraCheckpointer → BaseConfig → E → Result (Option Bytes) × E
  get_checkpoint ck key_info e =
      if is_missing Consts.key key_info
      then (err missing_key, e)
      else get_in (table ck) (index Consts.key key_info) (connect ck e)

  abbrev pub exec_in : String → List String → Result Session × E → Error × E
  exec_in statement args (err m, e) = (some m, e)
  exec_in statement args (ok s, e) = let (r, e') = db.exec s statement args e in (r, db.close s e')

  -- WriteCheckpoint
  unfoldable pub write_checkpoint : CassandraCheckpointer → BaseConfig → Bytes → E → Error × E
  write_checkpoint ck key_info value e =
      if is_missing Consts.key key_info
      then (some missing_key, e)
      else exec_in (insert_statement (table ck)) (index Consts.key key_info ∷ value ∷ [])
          (connect ck e)

  -- DeleteCheckpoint
  unfoldable pub delete_checkpoint : CassandraCheckpointer → BaseConfig → E → Error × E
  delete_checkpoint ck key_info e =
      if is_missing Consts.key key_info
      then (some missing_key, e)
      else exec_in (delete_statement (table ck)) (index Consts.key key_info ∷ []) (connect ck e)
