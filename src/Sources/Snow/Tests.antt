-- ===== src/Sources/Snow/Tests.antt =====
-- A poll that keeps one of two records at the time of the last one, and the polls after it.
use descartes_legacy.Prelude.{
  All, ◌≡◌, refl, String, true, false, none, some, List, [], ◌∷◌, ◌++◌, map,
}
use descartes_legacy.Prelude.Map.{Map, lookup, insert, index}
use descartes_legacy.Prelude.Int.{pos, eqb_ℤ}
use descartes_legacy.Prelude.Decimal.{parsed_value, parse_int64, format_nat}
use descartes_legacy.Prelude.Result.{ok, err, done}
use descartes_legacy.Prelude.Time.{parse_time, format_time, add_second}
use descartes_legacy.Base.Consts
use descartes_legacy.Base.Data.{BaseConfig, Data, DataWriter, new_data}
use descartes_legacy.Prelude.Text.{join}
use descartes_legacy.Sources.MemoryStore.{memory_checkpointer}
use descartes_legacy.Sources.Snow.Records.{
  CollectionState, Json, text, Entry, fields, is_text, Removal, field, text_of, is_fresh,
  remove_collected_records, timestamp_field_key, record_count_key, moved_on,
}
use descartes_legacy.Sources.Snow.Reader.{SnowCodec, SnowServer, SnowDataReader, index_records}
use descartes_legacy.Sources.Snow.Collected.{At, OneOf, sys_id}
use descartes_legacy.Sources.Snow.Repeats.{index_records-again}
use descartes_legacy.Sources.Snow.Forgets.{Lacks, index_records-forgets}

abbrev codec : SnowCodec
codec = record {
  unmarshal_answer = λ b. err "no JSON";
  marshal_state = λ s. ok s.next_record_time;
  unmarshal_state = λ s b. ok (record s { next_record_time = b });
  show = λ v. "?";
}

-- A sink that copies its data before it returns.
abbrev copying : DataWriter
copying = record {
  Sink = List Data;
  write_data = λ d w. (none, w ++ d ∷ []);
  delivered = λ w. w;
  write_nil = λ d w h. refl;
  write_error = λ d w h. absurd (cc h);
}

abbrev server : SnowServer
server = record { E = Unit; get = λ url user password e. (err "no server", e) }

abbrev config : BaseConfig
config =
    (Consts.server_url, "https://example.com")
    ∷ (Consts.username, "user")
    ∷ (Consts.metric, "incident")
    ∷ (timestamp_field_key, "at")
    ∷ (record_count_key, "10")
    ∷ []

abbrev midnight : String
midnight = "2015-06-30 23:59:59"

abbrev state_with : List String → CollectionState
state_with ids = record { version = "1"; next_record_time = midnight; last_time_records = ids }

abbrev reader : SnowDataReader codec copying memory_checkpointer server
reader = record {
  config = config;
  state = state_with ("a" ∷ []);
  collecting = false;
  started = true;
  sink = [];
  store = [];
  env = tt;
}

abbrev incident : String → Map Json
incident id = ("sys_id", text id) ∷ ("at", text midnight) ∷ []

abbrev answer : List Entry
answer = fields (incident "a") ∷ fields (incident "b") ∷ []

abbrev removal : Removal
removal = record {
  records = fields (incident "b") ∷ [];
  refreshed = false;
  state = state_with ("a" ∷ []);
}

removed : remove_collected_records config (state_with ("a" ∷ [])) answer ≡ done removal
unfolding remove_collected_records parsed_value parse_int64 index lookup field text_of
removed = refl

abbrev indexed : SnowDataReader codec copying memory_checkpointer server
indexed = record reader {
  state = state_with ("b" ∷ []);
  sink =
      record {
        meta_info =
            (Consts.server_url, "https://example.com")
            ∷ (Consts.username, "user")
            ∷ (Consts.metric, "incident")
            ∷ [];
        raw_data = "" ∷ "sys_id=\"b\",at=\"2015-06-30 23:59:59\"" ∷ [];
      }
      ∷ [];
  store = ("", midnight) ∷ [];
}

runs : index_records codec copying memory_checkpointer server answer reader ≡ done (none, indexed)
unfolding index_records parsed_value parse_int64 index lookup field text_of insert new_data join
runs = refl

midnight-At : All (At (index timestamp_field_key config) midnight) (incident "b" ∷ [])
unfolding index lookup field is_text
midnight-At = (refl, tt)

once :
    All
      (λ x.
        At (index timestamp_field_key config) midnight x × OneOf (map sys_id (incident "b" ∷ [])) x)
      (incident "b" ∷ [])
unfolding index lookup field is_text text_of
once = ((refl, refl), tt)

few : eqb_ℤ (pos 1) (parsed_value (index record_count_key config)) ≡ false
unfolding parsed_value parse_int64 index lookup
few = refl

lacks : All (Lacks (sys_id (incident "a"))) (fields (incident "b") ∷ [])
unfolding text_of field lookup
lacks = (refl, tt)

-- The other record is delivered only once.
index_records-again_example :
    index_records codec copying memory_checkpointer server (fields (incident "b") ∷ []) indexed
    ≡ done (none, indexed)
index_records-again_example =
    index_records-again codec copying memory_checkpointer server answer [] (incident "b" ∷ [])
      (incident "b" ∷ []) removal reader indexed runs removed refl refl midnight-At once few

-- The first record, which was delivered before this poll, is delivered again after it.
index_records-forgets_example :
    is_fresh (index timestamp_field_key config) ("b" ∷ []) midnight (incident "a") ≡ true
index_records-forgets_example =
    index_records-forgets codec copying memory_checkpointer server answer [] (fields (incident "b"))
      removal (incident "a") reader indexed runs removed refl refl lacks

-- A poll that fills the record count at one time moves on, over the end of a month.
moves_on :
    moved_on (state_with ("a" ∷ []))
    ≡ some
        (record { version = "1"; next_record_time = "2015-07-01 00:00:00"; last_time_records = [] })
unfolding moved_on parse_time format_time add_second format_nat
moves_on = refl
