-- ===== src/Sources/Snow/Reader.antt =====
-- The reader of sources/snow/snow_data_reader.go. The HTTP exchange and the JSON codec are
-- parameters.
use Prim.Native.String.{◌++◌ as append}
use descartes_legacy.Prelude.{
  String, Bool, true, false, not, ◌&&◌, Option, none, some, List, [], ◌∷◌, ◌++◌, if◌then◌else◌,
}
use descartes_legacy.Prelude.Map.{Map, has, index}
use descartes_legacy.Prelude.Text.{join, split}
use descartes_legacy.Prelude.Result.{Result, ok, err, Error, Outcome, done}
use descartes_legacy.Prelude.Outcome.{◌>>=◌}
use descartes_legacy.Base.Consts
use descartes_legacy.Base.Data.{Bytes, BaseConfig, new_data, DataWriter, Checkpointer}
use descartes_legacy.Sources.Snow.Records.{
  CollectionState, timestamp_field_key, next_record_time_key, record_count_key, Json, Entry,
  Removal, need_fields, remove_collected_records, current_state, record_line,
}

-- The records of the answer of the server that the reader looks at, or the error that it names.
pub record Answer : Type 0 where
  pub records : Option (List Entry)
  pub error : Option String

pub record SnowCodec : Type 0 where
  pub unmarshal_answer : Bytes → Result Answer
  pub marshal_state : CollectionState → Result Bytes
  pub unmarshal_state : CollectionState → Bytes → Result CollectionState
  -- `%s` of a value that is no text.
  pub show : Json → String

-- An authenticated GET request, with the body of its answer after decompression. There is no nil
-- body without an error.
pub record SnowServer : Type 1 where
  pub E : Type 0
  pub get : String → String → String → E → Result Bytes × E

-- Replace(s, " ", "+", 1)
unfoldable pub first_blank_to_plus : List String → String
first_blank_to_plus [] = ""
first_blank_to_plus (x ∷ []) = x
first_blank_to_plus (x ∷ y ∷ ys) = append x (append "+" (join " " (y ∷ ys)))

-- The keys that NewSnowDataReader wants.
abbrev pub required : List String
required =
    Consts.server_url ∷ Consts.username ∷ Consts.password ∷ Consts.metric ∷ timestamp_field_key
    ∷ next_record_time_key ∷ record_count_key ∷ []

abbrev pub has_all : List String → BaseConfig → Bool
has_all [] config = true
has_all (k ∷ ks) config = has k config && has_all ks config

module _ (codec : SnowCodec) (writer : DataWriter) (checkpoint : Checkpointer)
    (server : SnowServer) where
  pub record SnowDataReader : Type 0 where
    pub config : BaseConfig
    pub state : CollectionState
    pub collecting : Bool
    pub started : Bool
    pub sink : writer.Sink
    pub store : checkpoint.Store
    pub env : server.E

  -- getCheckpoint after the store answered.
  abbrev pub restored : CollectionState → Result (Option Bytes) → Option CollectionState
  restored state (err _) = none
  restored state (ok none) = some state
  restored state (ok (some bytes)) = elim (codec.unmarshal_state state bytes) [
    | err _ ↦ none
    | ok s ↦ some s
  ]

  unfoldable pub get_checkpoint : BaseConfig → checkpoint.Store → Option CollectionState
  get_checkpoint config s =
      restored
        (record {
          version = "1";
          next_record_time = index next_record_time_key config;
          last_time_records = [];
        })
        (checkpoint.get_checkpoint config s)

  -- NewSnowDataReader
  unfoldable pub new_snow_data_reader :
      BaseConfig → writer.Sink → checkpoint.Store → server.E → Option SnowDataReader
  unfolding get_checkpoint
  new_snow_data_reader config w s e =
      if not (has_all required config) then none else elim (get_checkpoint config s) [
        | none ↦ none
        | some state ↦ some (record {
          config = config;
          state = state;
          collecting = false;
          started = false;
          sink = w;
          store = s;
          env = e;
        })
      ]

  -- Start and Stop, with the flag that says whether the call does more than log.
  unfoldable pub start : SnowDataReader → SnowDataReader × Bool
  start r = if r.started then (r, false) else (record r { started = true }, true)

  unfoldable pub stop : SnowDataReader → SnowDataReader × Bool
  stop r = if r.started then (record r { started = false }, true) else (r, false)

  -- getURL
  unfoldable pub get_url : SnowDataReader → String
  unfolding first_blank_to_plus
  get_url r =
      let timefield = index timestamp_field_key r.config in
      join "" (
        index Consts.server_url r.config
        ∷ "/"
        ∷ index Consts.metric r.config
        ∷ ".do?JSONv2&sysparm_query="
        ∷ timefield
        ∷ ">="
        ∷ first_blank_to_plus (split b' ' r.state.next_record_time)
        ∷ "^ORDERBY"
        ∷ timefield
        ∷ "&sysparm_record_count="
        ∷ index record_count_key r.config
        ∷ [])

  -- ReadData: nothing while another call is at it.
  unfoldable pub read_data : SnowDataReader → Result (Option Bytes) × SnowDataReader
  unfolding get_url
  read_data r =
      if r.collecting
      then (ok none, r)
      else let (body, e) =
          server.get (get_url r) (index Consts.username r.config) (index Consts.password r.config)
            r.env in
        (elim body [ ok b ↦ ok (some b) | err m ↦ err m ], record r { env = e })

  -- The loop of IndexData after a write.
  abbrev pub continue :
      (writer.Sink → Outcome (Error × writer.Sink))
      → Error × writer.Sink
      → Outcome (Error × writer.Sink)
  continue rest (some m, w) = done (some m, w)
  continue rest (none, w) = rest w

  -- The loop of IndexData: a failed write ends it, an entry that is no object panics. The code passes
  -- a pointer to one Data and overwrites its buffer after each write, so the sink has what it needs
  -- of the data when the write returns.
  unfoldable pub write_records :
      Map String → List Bytes → List Entry → writer.Sink → Outcome (Error × writer.Sink)
  unfolding need_fields record_line
  write_records meta buffer [] w = done (none, w)
  write_records meta buffer (entry ∷ records) w =
      let rest : writer.Sink → Outcome (Error × writer.Sink) = write_records meta [] records in
      do
        r ← need_fields entry
        continue rest
            (writer.write_data (new_data meta (buffer ++ record_line codec.show r ∷ [])) w)

  -- The end of writeCheckpoint.
  abbrev pub saved :
      Bool → CollectionState → SnowDataReader → Error × checkpoint.Store → Error × SnowDataReader
  saved refreshed new_state r (some m, s) = (some m, record r { store = s })
  saved true new_state r (none, s) = (none, record r { store = s })
  saved false new_state r (none, s) = (none, record r { store = s; state = new_state })

  -- writeCheckpoint after the state was collected.
  abbrev pub save_state :
      Bool → CollectionState → SnowDataReader → Result Bytes → Error × SnowDataReader
  save_state refreshed new_state r (err m) = (some m, r)
  save_state refreshed new_state r (ok bytes) =
      saved refreshed new_state r (checkpoint.write_checkpoint r.config bytes r.store)

  -- writeCheckpoint
  unfoldable pub write_checkpoint :
      List Entry → Bool → SnowDataReader → Outcome (Error × SnowDataReader)
  unfolding current_state
  write_checkpoint [] refreshed r = done (none, r)
  write_checkpoint (entry ∷ records) refreshed r = do
    new_state ← current_state (index timestamp_field_key r.config) (entry ∷ records)
    done (save_state refreshed new_state r (codec.marshal_state new_state))

  abbrev pub meta_info : BaseConfig → Map String
  meta_info config =
      (Consts.server_url, index Consts.server_url config)
      ∷ (Consts.username, index Consts.username config)
      ∷ (Consts.metric, index Consts.metric config)
      ∷ []

  -- IndexData after the writes.
  abbrev pub after_writes :
      Removal → SnowDataReader → Error × writer.Sink → Outcome (Error × SnowDataReader)
  after_writes removal r (some m, w) = done (some m, record r { sink = w })
  after_writes removal r (none, w) =
      write_checkpoint removal.records removal.refreshed (record r { sink = w })

  -- IndexData for the records of an answer.
  unfoldable pub index_records : List Entry → SnowDataReader → Outcome (Error × SnowDataReader)
  unfolding remove_collected_records write_records write_checkpoint
  index_records records r = do
    removal ← remove_collected_records r.config r.state records
    written ← write_records (meta_info r.config) ("" ∷ []) removal.records r.sink
    after_writes removal (record r { state = removal.state }) written

  abbrev pub index_answer : Result Answer → SnowDataReader → Outcome (Error × SnowDataReader)
  index_answer (err m) r = done (some m, r)
  index_answer (ok a) r = elim a.records [
    | some records ↦ index_records records r
    | none ↦ done (a.error, r)
  ]

  -- IndexData after ReadData.
  abbrev pub index_body : Result (Option Bytes) × SnowDataReader → Outcome (Error × SnowDataReader)
  index_body (err m, r) = done (some m, r)
  index_body (ok none, r) = done (none, r)
  index_body (ok (some body), r) = index_answer (codec.unmarshal_answer body) r

  -- IndexData
  unfoldable pub index_data : SnowDataReader → Outcome (Error × SnowDataReader)
  unfolding read_data index_records
  index_data r = index_body (read_data r)
