-- ===== src/Base/ZooKeeper/Checkpointer.antt =====
-- base/zookeeper_checkpointer.go: a checkpoint is the value of a node, which a write deletes and
-- creates again.
use descartes_legacy.Prelude.{
  ◌≡◌, refl, String, Bool, true, false, Option, none, some, if◌then◌else◌, str_eq, arith,
  Bool-cases, inl, inr,
}
use Prim.Native.String.{len}
use descartes_legacy.Prelude.Int.{ℤ}
use descartes_legacy.Prelude.Map.{index}
use descartes_legacy.Prelude.Text.{has_prefix}
use descartes_legacy.Prelude.Result.{Result, ok, err, Error}
use descartes_legacy.Base.Consts
use descartes_legacy.Base.Data.{Bytes, BaseConfig}
use descartes_legacy.Base.ZooKeeper.{
  Conn, delete_node, create_node, get_node, mkdir_recursive, dir, ignore, create_below,
}

module _ (conn : Conn) where
  open conn use {E}

  -- GetCheckpoint
  unfoldable pub get_checkpoint : BaseConfig → E → Result (Option Bytes) × E
  get_checkpoint key_info e =
      let node = index Consts.key key_info in
      if str_eq node "" then (err "Missing Key in the config", e) else get_node conn node true e

  -- WriteCheckpoint after the old node was deleted.
  abbrev write_anew : String → Bytes → Error × E → Error × E
  write_anew node value (some m, e) = (some m, e)
  write_anew node value (none, e) = create_node conn node (some value) false false e

  -- WriteCheckpoint
  unfoldable pub write_checkpoint : BaseConfig → Bytes → E → Error × E
  write_checkpoint key_info value e =
      let node = index Consts.key key_info in
      if str_eq node ""
      then (some "Missing Key in the config", e)
      else write_anew node value (delete_node conn node true e)

  -- DeleteCheckpoint
  unfoldable pub delete_checkpoint : BaseConfig → E → Error × E
  delete_checkpoint key_info e =
      let node = index Consts.key key_info in
      if str_eq node "" then (some "Missing Key in the config", e) else delete_node conn node true e

  module _
      (created : (node : String) (value : Option Bytes) (ephemeral : Bool) (e : E)
        → (conn.create node value ephemeral e).0 ≡ none
        → (version : ℤ) × ((conn.get node (conn.create node value ephemeral e).1).0
            ≡ ok (value, version))) where
    ignored_nothing : (r : Error) → ignore conn conn.err_node_exists false r ≡ none → r ≡ none
    ignored_nothing none h = refl
    ignored_nothing (some x) h = absurd (ground (arith, h))

    create_below_reads :
        (node : String) (value : Option Bytes) (r : Error × E)
        → (create_below conn node value false false r).0 ≡ none
        → (get_node conn node true (create_below conn node value false false r).1).0 ≡ ok value
    unfolding get_node
    create_below_reads node value (some m, e) h = absurd (cc h)
    create_below_reads node value (none, e) h =
        let (v, g) =
          created node value false e (ignored_nothing (conn.create node value false e).0 h) in
        rw (g, get_node) refl

    create_node_reads :
        (node : String) (value : Option Bytes) (e : E)
        → (create_node conn node value false false e).0 ≡ none
        → (get_node conn node true (create_node conn node value false false e).1).0 ≡ ok value
    unfolding create_node
    create_node_reads node value e = elim (Bool-cases (has_prefix node "/")) [
      | inl c ↦
          rw (c) (create_below_reads node value (mkdir_recursive conn (len node) (dir node) e))
      | inr c ↦ rw (c) (λ h. absurd (cc h))
    ]

    write_anew_reads :
        (node : String) (value : Bytes) (r : Error × E)
        → (write_anew node value r).0 ≡ none
        → (get_node conn node true (write_anew node value r).1).0 ≡ ok (some value)
    write_anew_reads node value (some m, e) h = absurd (cc h)
    write_anew_reads node value (none, e) h = create_node_reads node (some value) e h

    -- A checkpoint that was written is the one that is read, if a node that was created has its value.
    pub read_after_write :
        (key_info : BaseConfig) (value : Bytes) (e : E)
        → (write_checkpoint key_info value e).0 ≡ none
        → (get_checkpoint key_info (write_checkpoint key_info value e).1).0 ≡ ok (some value)
    unfolding write_checkpoint get_checkpoint
    read_after_write key_info value e = elim (Bool-cases (str_eq (index Consts.key key_info) "")) [
      | inl c ↦ rw c (λ h. absurd (cc h))
      | inr c ↦ rw c (
          write_anew_reads (index Consts.key key_info) value
            (delete_node conn (index Consts.key key_info) true e))
    ]
