-- ===== src/Sources/MemoryStore.antt =====
-- A store of base/checkpointer.go in memory, by the checkpoint's key, for the tests of the readers.
use descartes_legacy.Prelude.{String, ◌≡◌, refl, ap, none, some, str_eq_refl}
use descartes_legacy.Prelude.Map.{Map, lookup, insert, index, lookup-insert}
use descartes_legacy.Prelude.Result.{ok}
use descartes_legacy.Base.Consts
use descartes_legacy.Base.Data.{Bytes, BaseConfig, Checkpointer}

abbrev ckpt_key : BaseConfig → String
ckpt_key = index Consts.checkpoint_key

pub read_back :
    (k : BaseConfig) (v : Bytes) (s : Map Bytes)
    → lookup (ckpt_key k) (insert (ckpt_key k) v s) ≡ some v
read_back k v s = rw (lookup-insert (ckpt_key k) (ckpt_key k) v s, str_eq_refl (ckpt_key k)) refl

abbrev pub memory_checkpointer : Checkpointer
memory_checkpointer = record {
  Store = Map Bytes;
  get_checkpoint = λ k s. ok (lookup (ckpt_key k) s);
  write_checkpoint = λ k v s. (none, insert (ckpt_key k) v s);
  read_back = λ k v s h. ap ok (read_back k v s);
  failed_write = λ k v s {e} h. cc h;
}
