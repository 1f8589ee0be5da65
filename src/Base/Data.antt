-- ===== src/Base/Data.antt =====
-- base/base_config.go, and the interfaces of base/data_writer.go and base/checkpointer.go as what
-- their callers may rely on. A nil []byte is `none`.
use descartes_legacy.Prelude.{String, ◌≡◌, Option, none, some, List, [], ◌∷◌, ◌++◌}
use descartes_legacy.Prelude.Map.{Map}
use descartes_legacy.Prelude.Result.{Result, ok, Error}

abbrev pub BaseConfig : Type 0
BaseConfig = Map String

-- []byte
abbrev pub Bytes : Type 0
Bytes = String

pub record Data : Type 0 where
  pub meta_info : Map String
  pub raw_data : List Bytes

unfoldable pub new_data : Map String → List Bytes → Data
new_data meta_info raw_data = record { meta_info = meta_info; raw_data = raw_data }

-- A sink whose write either delivers the data after all earlier data, or reports an error and
-- delivers nothing.
pub record DataWriter : Type 1 where
  pub Sink : Type 0
  pub write_data : Data → Sink → Error × Sink
  pub delivered : Sink → List Data
  pub write_nil :
      (d : Data) (w : Sink)
      → (write_data d w).0 ≡ none
      → delivered (write_data d w).1 ≡ delivered w ++ d ∷ []
  pub write_error :
      (d : Data) (w : Sink) {e : String}
      → (write_data d w).0 ≡ some e
      → delivered (write_data d w).1 ≡ delivered w

-- A store whose successful write is what a later read of the same key returns; a failed write
-- changes nothing.
pub record Checkpointer : Type 1 where
  pub Store : Type 0
  pub get_checkpoint : BaseConfig → Store → Result (Option Bytes)
  pub write_checkpoint : BaseConfig → Bytes → Store → Error × Store
  pub read_back :
      (k : BaseConfig) (v : Bytes) (s : Store)
      → (write_checkpoint k v s).0 ≡ none
      → get_checkpoint k (write_checkpoint k v s).1 ≡ ok (some v)
  pub failed_write :
      (k : BaseConfig) (v : Bytes) (s : Store) {e : String}
      → (write_checkpoint k v s).0 ≡ some e
      → get_checkpoint k (write_checkpoint k v s).1 ≡ get_checkpoint k s
