-- ===== src/Base/ZooKeeper.antt =====
-- base/zookeeper_client.go: the election and the nodes. The connection of go-zookeeper is a
-- parameter, and `E` is the state of the ensemble behind it. Paths are clean and ASCII.
pub mod Election
pub mod Checkpointer
pub mod Directories
mod Tests
use Prim.Native.String.{◌++◌ as append, len, slice}
use descartes_legacy.Prelude.{
  ℕ, zero, suc, ◌-◌, String, Bool, true, false, not, ◌&&◌, ◌||◌, Option, none, some, List, [], ◌∷◌,
  if◌then◌else◌, str_eq, ltb,
}
use descartes_legacy.Prelude.Int.{ℤ, pos, ltb_ℤ}
use descartes_legacy.Prelude.Map.{Map, has, index, insert}
use descartes_legacy.Prelude.Text.{split, join, has_prefix}
use descartes_legacy.Prelude.Decimal.{parse_int32}
use descartes_legacy.Prelude.Result.{Result, ok, err, Error, Outcome, done, panic}
use descartes_legacy.Base.Consts
use descartes_legacy.Base.Data.{Bytes, BaseConfig}

abbrev pub root : String
root = "/descartes"

abbrev pub election_root : String
election_root = append root "/election"

abbrev pub heartbeat_root : String
heartbeat_root = append root "/heartbeat"

abbrev pub long_run_task_root : String
long_run_task_root = append root "/long_run_tasks"

-- What zk.Conn offers; ErrNoNode and ErrNodeExists are errors by their texts.
pub record Conn : Type 1 where
  pub E : Type 0
  pub err_no_node : String
  pub err_node_exists : String
  pub create_protected_ephemeral_sequential : String → E → Result String × E
  pub children : String → E → Result (List String) × E
  -- The value of a node and its version.
  pub get : String → E → Result (Option Bytes × ℤ) × E
  pub create : String → Option Bytes → Bool → E → Error × E
  pub delete : String → ℤ → E → Error × E
  pub set : String → Option Bytes → ℤ → E → Error × E

-- A key of the config that is empty gets its default.
unfoldable pub with_default : String → String → BaseConfig → BaseConfig
with_default key value config =
    if str_eq (index key config) "" then insert key value config else config

-- The config of NewZooKeeperClient, or `none` without a server.
unfoldable pub configured : BaseConfig → Option BaseConfig
unfolding with_default
configured config =
    if str_eq (index Consts.zoo_keeper_servers config) ""
    then none
    else some (
        with_default Consts.zoo_keeper_long_run_task long_run_task_root (
          with_default Consts.zoo_keeper_heartbeat_root heartbeat_root (
            with_default Consts.zoo_keeper_election_root election_root
              (with_default Consts.zoo_keeper_root root config))))

-- `strconv.ParseInt(guid[len(guid)-10:], 10, 32)`: a shorter text panics.
unfoldable pub sequence_number : String → Outcome (Result ℤ)
sequence_number guid =
    if ltb (len guid) 10
    then panic "slice bounds out of range"
    else done (parse_int32 (slice guid (len guid - 10) (len guid)))

abbrev pub and_then : ℤ → Outcome (Result (List ℤ)) → Outcome (Result (List ℤ))
and_then n (done (ok ns)) = done (ok (n ∷ ns))
and_then n (done (err m)) = done (err m)
and_then n (panic m) = panic m

-- The first loop of IsLeader.
unfoldable pub sequence_numbers : List String → Outcome (Result (List ℤ))
sequence_numbers [] = done (ok [])
sequence_numbers (p ∷ ps) =
    let rest = sequence_numbers ps in
    elim (sequence_number p) [
      | done r ↦ elim r [ ok n ↦ and_then n rest | err m ↦ done (err m) ]
      | panic m ↦ panic m
    ]

-- The second loop of IsLeader.
unfoldable pub is_minimal : ℤ → List ℤ → Bool
is_minimal n [] = true
is_minimal n (m ∷ ms) = if ltb_ℤ m n then false else is_minimal n ms

-- IsLeader after Children answered.
unfoldable pub is_leader_among : String → List String → Outcome (Result Bool)
unfolding sequence_number sequence_numbers is_minimal
is_leader_among guid participants = elim (sequence_number guid) [
  | panic m ↦ panic m
  | done r ↦ elim r [
    | err m ↦ done (err m)
    | ok n ↦ elim (sequence_numbers participants) [
      | panic m ↦ panic m
      | done s ↦ elim s [ err m ↦ done (err m) | ok ns ↦ done (ok (is_minimal n ns)) ]
    ]
  ]
]

abbrev pub parents : List String → List String
parents [] = []
parents (x ∷ []) = []
parents (x ∷ y ∷ ys) = x ∷ parents (y ∷ ys)

abbrev pub or_root : String → String
or_root s = if str_eq s "" then "/" else s

-- path.Dir of a clean absolute path.
unfoldable pub dir : String → String
dir node = or_root (join "/" (parents (split b'/' node)))

module _ (conn : Conn) where
  open conn use {E}

  -- JoinElection
  unfoldable pub join_election : BaseConfig → String → E → Result String × E
  join_election config node e =
      conn.create_protected_ephemeral_sequential
        (append (index Consts.zoo_keeper_election_root config) (append "/" (append node "_"))) e

  -- IsLeader
  unfoldable pub is_leader : BaseConfig → String → E → Outcome (Result Bool) × E
  unfolding is_leader_among
  is_leader config guid e =
      let (r, e') = conn.children (index Consts.zoo_keeper_election_root config) e in
      (elim r [ err m ↦ done (err m) | ok participants ↦ is_leader_among guid participants ], e')

  -- DeleteNode
  unfoldable pub delete_node : String → Bool → E → Error × E
  delete_node node ignore_not_exists e =
      let (r, e') = conn.get node e in
      elim r [
        | err m ↦ (if str_eq m conn.err_no_node && ignore_not_exists then none else some m, e')
        | ok x ↦ conn.delete node x.1 e'
      ]

  abbrev pub ignore : String → Bool → Error → Error
  ignore exists ignored none = none
  ignore exists ignored (some m) = if str_eq m exists && ignored then none else some m

  -- mkdirRecursive, with the levels that are left as fuel.
  unfoldable pub mkdir_recursive : ℕ → String → E → Error × E
  unfolding dir
  mkdir_recursive zero node e = (some "out of fuel", e)
  mkdir_recursive (suc n) node e =
      let (above, e') =
        if str_eq (dir node) "/" then (none, e) else mkdir_recursive n (dir node) e in
      elim above [
        | some m ↦ (some m, e')
        | none ↦
            let (r, e'') = conn.create node none false e' in
            (ignore conn.err_node_exists true r, e'')
      ]

  -- CreateNode after the directory was made.
  abbrev pub create_below : String → Option Bytes → Bool → Bool → Error × E → Error × E
  create_below node value ephemeral ignore_exists (some m, e) = (some m, e)
  create_below node value ephemeral ignore_exists (none, e) =
      let (r, e') = conn.create node value ephemeral e in
      (ignore conn.err_node_exists ignore_exists r, e')

  -- CreateNode: there are at most as many levels as bytes in the path.
  unfoldable pub create_node : String → Option Bytes → Bool → Bool → E → Error × E
  create_node node value ephemeral ignore_exists e =
      if not (has_prefix node "/")
      then (some "Invalid node", e)
      else create_below node value ephemeral ignore_exists (mkdir_recursive (len node) (dir node) e)

  -- GetNode: without the node the data are nil.
  unfoldable pub get_node : String → Bool → E → Result (Option Bytes) × E
  get_node node ignore_not_exists e =
      let (r, e') = conn.get node e in
      (
        elim r [
          | ok x ↦ ok x.0
          | err m ↦ if str_eq m conn.err_no_node && ignore_not_exists then ok none else err m
        ],
        e',
      )

  -- SetNode
  unfoldable pub set_node : String → Option Bytes → E → Error × E
  set_node node value e =
      let (r, e') = conn.get node e in
      elim r [ err m ↦ (some m, e') | ok x ↦ conn.set node value x.1 e' ]
