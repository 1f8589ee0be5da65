-- ===== src/Base/Checkpointers/File.antt =====
-- base/file_checkpointer.go: a checkpoint is a file. The file system is a parameter.
use Prim.Native.String.{◌++◌ as append}
use descartes_legacy.Prelude.{
  ◌≡◌, refl, String, Bool, true, not, Option, none, some, List, [], ◌∷◌, if◌then◌else◌,
}
use descartes_legacy.Prelude.Map.{index}
use descartes_legacy.Prelude.Result.{Result, ok, err, Error}
use descartes_legacy.Base.Consts
use descartes_legacy.Base.Data.{Bytes, BaseConfig}

-- What os, ioutil and filepath offer; `exists` is that os.Stat does not report a missing file.
pub record FileSystem : Type 1 where
  pub E : Type 0
  pub join_path : List String → String
  pub exists : String → E → Bool
  pub read_file : String → E → Result Bytes
  pub write_file : String → Bytes → E → Error × E
  pub remove : String → E → Error × E

module _ (fs : FileSystem) where
  abbrev pub file_name : BaseConfig → String
  file_name key_info = fs.join_path (
      index Consts.checkpoint_dir key_info
      ∷ append (index Consts.checkpoint_namespace key_info)
          (append "_" (append (index Consts.checkpoint_key key_info) ".ck"))
      ∷ [])

  unfoldable pub get_checkpoint : BaseConfig → fs.E → Result (Option Bytes)
  get_checkpoint key_info e =
      if not (fs.exists (file_name key_info) e)
      then ok none
      else elim (fs.read_file (file_name key_info) e) [
        | ok content ↦ ok (some content)
        | err m ↦ err m
      ]

  unfoldable pub write_checkpoint : BaseConfig → Bytes → fs.E → Error × fs.E
  write_checkpoint key_info value e = fs.write_file (file_name key_info) value e

  unfoldable pub delete_checkpoint : BaseConfig → fs.E → Error × fs.E
  delete_checkpoint key_info e = fs.remove (file_name key_info) e

  -- Where a file that was written without an error exists and reads back, so does a checkpoint.
  read_after_write :
      ((name : String) (value : Bytes) (e : fs.E)
        → (fs.write_file name value e).0 ≡ none
        → (fs.exists name (fs.write_file name value e).1 ≡ true)
          × (fs.read_file name (fs.write_file name value e).1 ≡ ok value))
      → (key_info : BaseConfig) (value : Bytes) (e : fs.E)
      → (write_checkpoint key_info value e).0 ≡ none
      → get_checkpoint key_info (write_checkpoint key_info value e).1 ≡ ok (some value)
  unfolding get_checkpoint write_checkpoint
  read_after_write law key_info value e h =
      let (there, reads) = law (file_name key_info) value e h in rw (there, reads) refl
