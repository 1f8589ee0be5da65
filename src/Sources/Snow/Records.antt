-- ===== src/Sources/Snow/Records.antt =====
-- The records of an answer in sources/snow/snow_data_reader.go: which are kept, the state after
-- them, and their text. A map is iterated in the order of its entries.
use Prim.Native.String.{◌++◌ as append}
use descartes_legacy.Prelude.{
  String, Bool, true, false, not, ◌&&◌, ◌||◌, Option, none, some, List, [], ◌∷◌, ◌++◌, map,
  if◌then◌else◌, str_eq, length, ◌==◌,
}
use mathlib.Core.List.{reverse}
use descartes_legacy.Prelude.Int.{pos, eqb_ℤ}
use descartes_legacy.Prelude.Map.{Map, lookup, index}
use descartes_legacy.Prelude.Text.{join}
use descartes_legacy.Prelude.Time.{parse_time, add_second, format_time}
use descartes_legacy.Prelude.Decimal.{parsed_value}
use descartes_legacy.Prelude.Result.{Outcome, done, panic}
use descartes_legacy.Prelude.Outcome.{◌>>=◌}
use descartes_legacy.Base.Data.{Data, Bytes, BaseConfig, new_data}

pub record CollectionState : Type 0 where
  pub version : String
  pub next_record_time : String
  pub last_time_records : List String

abbrev pub timestamp_field_key : String
timestamp_field_key = "TimestampField"

abbrev pub next_record_time_key : String
next_record_time_key = "NextRecordTime"

abbrev pub record_count_key : String
record_count_key = "RecordCount"

-- A value of type interface{} that a JSON document decodes to. A number is its shortest text.
pub data Json : Type 0 where
  null : Json
  bool : Bool → Json
  number : String → Json
  text : String → Json
  list : Json
  object : Json

-- `==` on two such values, which panics for two values of one uncomparable type.
unfoldable pub same_value : Json → Json → Outcome Bool
same_value null null = done true
same_value (bool a) (bool b) = done (if a then b else not b)
same_value (number a) (number b) = done (str_eq a b)
same_value (text a) (text b) = done (str_eq a b)
same_value list list = panic "comparing uncomparable type []interface {}"
same_value object object = panic "comparing uncomparable type map[string]interface {}"
same_value _ _ = done false

-- `v.(string)` with its flag dropped: the empty text for any other value.
unfoldable pub text_of : Json → String
text_of (text s) = s
text_of _ = ""

-- `v.(string)`, which panics.
unfoldable pub need_text : Json → Outcome String
need_text (text s) = done s
need_text _ = panic "interface conversion: interface {} is not string"

-- An entry of the list of records.
pub data Entry : Type 0 where
  fields : Map Json → Entry
  other : Entry

abbrev pub or_null : Option Json → Json
or_null none = null
or_null (some v) = v

-- `r[k]` of a decoded object; a missing key reads as nil.
unfoldable pub field : String → Map Json → Json
field k r = or_null (lookup k r)

-- `records[i].(map[string]interface{})`
unfoldable pub need_fields : Entry → Outcome (Map Json)
need_fields (fields r) = done r
need_fields other = panic "interface conversion: interface {} is not map[string]interface {}"

-- `r[timefield] == lastRecordTime`, against a text.
unfoldable pub is_text : String → Json → Bool
is_text s (text t) = str_eq t s
is_text s _ = false

abbrev pub is_in : String → List String → Bool
is_in s [] = false
is_in s (x ∷ xs) = str_eq x s || is_in s xs

-- Whether doRemoveRecords keeps the fields of a record.
unfoldable pub is_fresh : String → List String → String → Map Json → Bool
unfolding is_text
is_fresh timefield last_time_records last_record_time r = not (
    is_text last_record_time (field timefield r)
    && is_in (text_of (field "sys_id" r)) last_time_records)

-- doRemoveRecords
unfoldable pub do_remove_records : String → List String → String → List Entry → List Entry
unfolding is_fresh
do_remove_records timefield last_time_records last_record_time [] = []
do_remove_records timefield last_time_records last_record_time (other ∷ records) =
    do_remove_records timefield last_time_records last_record_time records
do_remove_records timefield last_time_records last_record_time (fields r ∷ records) =
    let rest = do_remove_records timefield last_time_records last_record_time records in
    if is_fresh timefield last_time_records last_record_time r then fields r ∷ rest else rest

abbrev pub last_entry : Entry → List Entry → Entry
last_entry first [] = first
last_entry first (x ∷ xs) = last_entry x xs

-- The state after the timestamp was moved on by a second, or `none` for a time that is none.
unfoldable pub moved_on : CollectionState → Option CollectionState
moved_on state = elim (parse_time state.next_record_time) [
  | none ↦ none
  | some t ↦
      some (record state { next_record_time = format_time (add_second t); last_time_records = [] })
]

-- What removeCollectedRecords returns, with the state that it leaves.
pub record Removal : Type 0 where
  pub records : List Entry
  pub refreshed : Bool
  pub state : CollectionState

-- The end of removeCollectedRecords where all records have one timestamp.
abbrev pub move_on : List Entry → CollectionState → Option CollectionState → Removal
move_on kept state none = record { records = []; refreshed = false; state = state }
move_on kept state (some state') = record { records = kept; refreshed = true; state = state' }

-- removeCollectedRecords for a list that is not empty.
unfoldable pub remove_from : BaseConfig → CollectionState → Entry → List Entry → Outcome Removal
unfolding do_remove_records moved_on
remove_from config state first rest =
    let records = first ∷ rest in
    let timefield = index timestamp_field_key config in
    let kept = do_remove_records timefield state.last_time_records state.next_record_time records in
    let removal : Removal = record { records = kept; refreshed = false; state = state } in
    let full = do
      a ← need_fields first
      b ← need_fields (last_entry first rest)
      same ← same_value (field timefield a) (field timefield b)
      done (if same then move_on kept state (moved_on state) else removal)
    in if eqb_ℤ (pos (length records)) (parsed_value (index record_count_key config))
      then full
      else done removal

-- removeCollectedRecords
unfoldable pub remove_collected_records :
    BaseConfig → CollectionState → List Entry → Outcome Removal
unfolding remove_from
remove_collected_records config state [] =
    done (record { records = []; refreshed = false; state = state })
remove_collected_records config state (first ∷ rest) =
    if length state.last_time_records == 0
    then done (record { records = first ∷ rest; refreshed = false; state = state })
    else remove_from config state first rest

-- One record of the loop of writeCheckpoint: `break` at another timestamp.
abbrev pub collect_id : Bool → Map Json → Outcome (List String) → Outcome (List String)
collect_id false r earlier = done []
collect_id true r earlier = do id ← need_text (field "sys_id" r); ids ← earlier; done (id ∷ ids)

-- The loop of writeCheckpoint, from the last record backwards: the ids of the records that have
-- the timestamp of the last one.
unfoldable pub max_timestamp_records : String → Json → List Entry → Outcome (List String)
unfolding need_fields same_value need_text
max_timestamp_records timefield newest [] = done []
max_timestamp_records timefield newest (entry ∷ before) =
    let earlier = max_timestamp_records timefield newest before in
    do
      r ← need_fields entry
      same ← same_value (field timefield r) newest
      collect_id same r earlier

-- `lastRecord, _ := records[len(records)-1].(map[string]interface{})`: the nil map for another value.
abbrev pub fields_of : Entry → Map Json
fields_of (fields r) = r
fields_of other = []

-- `lastRecord[timefield]`, for the records from the last one backwards.
abbrev pub newest_time : String → List Entry → Json
newest_time timefield [] = null
newest_time timefield (entry ∷ _) = field timefield (fields_of entry)

-- currentState of writeCheckpoint.
unfoldable pub current_state : String → List Entry → Outcome CollectionState
unfolding max_timestamp_records
current_state timefield records =
    let backwards = reverse records in
    let newest = newest_time timefield backwards in
    do
      ids ← max_timestamp_records timefield newest backwards
      time ← need_text newest
      done (record { version = "1"; next_record_time = time; last_time_records = ids })

-- `%s` of a value.
abbrev pub print_value : (Json → String) → Json → String
print_value show (text s) = s
print_value show v = show v

-- One record as text: `key="value"` for each field, between commas.
unfoldable pub record_line : (Json → String) → Map Json → String
record_line show r =
    join "," (
      map (λ (e : String × Json). append e.0 (append "=\"" (append (print_value show e.1) "\""))) r)

-- The data of the records. The buffer starts with one nil entry, which the first data carry along.
unfoldable pub all_data : (Json → String) → Map String → List Bytes → List (Map Json) → List Data
unfolding record_line
all_data show meta buffer [] = []
all_data show meta buffer (r ∷ rs) =
    new_data meta (buffer ++ record_line show r ∷ []) ∷ all_data show meta [] rs
