-- ===== src/Base/Checkpointers/Tests.antt =====
-- A database of one table, whose rows are a map of the keys.
use descartes_legacy.Prelude.{◌≡◌, refl, String, Option, none, some, List, [], ◌∷◌}
use descartes_legacy.Prelude.Int.{pos}
use descartes_legacy.Prelude.Map.{Map, lookup, insert, index}
use descartes_legacy.Prelude.Text.{split, join}
use descartes_legacy.Prelude.Decimal.{parse_int32}
use descartes_legacy.Prelude.Result.{Result, ok, err, Error}
use descartes_legacy.Base.Consts
use descartes_legacy.Base.Data.{Bytes, BaseConfig}
use descartes_legacy.Base.Checkpointers.Cassandra.{
  Cassandra, CassandraCheckpointer, new_cassandra_checkpointer, get_checkpoint, write_checkpoint,
  one,
}

abbrev run : List String → Map Bytes → Error × Map Bytes
run (k ∷ v ∷ []) m = (none, insert k v m)
run _ m = (some "bad arguments", m)

abbrev answer : Option Bytes → Result (Option Bytes)
answer none = err "not found"
answer (some v) = ok (some v)

abbrev db : Cassandra
db = record {
  E = Map Bytes;
  Session = Unit;
  create_session = λ cluster e. (ok tt, e);
  scan = λ s statement k e. (answer (lookup k e), e);
  exec = λ s statement args e. run args e;
  close = λ s e. e;
}

abbrev config : BaseConfig
config =
    (Consts.cassandra_seeds, "10.0.0.1:9042;10.0.0.2:9042")
    ∷ (Consts.cassandra_keyspace, "ks")
    ∷ (Consts.checkpoint_table, "ck")
    ∷ []

abbrev checkpointer : CassandraCheckpointer
checkpointer = record {
  config = config;
  cluster = record {
    hosts = "10.0.0.1" ∷ "10.0.0.2" ∷ [];
    keyspace = "ks";
    consistency = one;
    timeout = pos 30000000000;
    port = pos 9042;
  };
}

made : new_cassandra_checkpointer config ≡ some checkpointer
unfolding new_cassandra_checkpointer index lookup parse_int32 split join
made = refl

abbrev key_info : BaseConfig
key_info = (Consts.key, "/a/b") ∷ []

reads :
    (get_checkpoint db checkpointer key_info (write_checkpoint db checkpointer key_info "5" []).1).0
    ≡ ok (some "5")
unfolding get_checkpoint write_checkpoint index lookup insert
reads = refl
