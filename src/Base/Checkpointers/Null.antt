-- ===== src/Base/Checkpointers/Null.antt =====
-- The null checkpointer of base/checkpointer.go.
use descartes_legacy.Prelude.{Option, none}
use descartes_legacy.Prelude.Result.{Result, ok, Error}
use descartes_legacy.Base.Data.{Bytes, BaseConfig}

unfoldable pub get_checkpoint : BaseConfig → Result (Option Bytes)
get_checkpoint key_info = ok none

unfoldable pub write_checkpoint : BaseConfig → Bytes → Error
write_checkpoint key_info value = none

unfoldable pub delete_checkpoint : BaseConfig → Error
delete_checkpoint key_info = none
