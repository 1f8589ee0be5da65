-- ===== src/Base/ZooKeeper/Directories.antt =====
-- mkdirRecursive and CreateNode of base/zookeeper_client.go on the levels of a path.
use Prim.Native.String.{◌++◌ as append, len}
use Prim.Native.String.append as append_lem
use Prim.Native.String.len as len_lem
use descartes_legacy.Prelude.{
  ℕ, ◌≡◌, String, true, false, none, some, List, [], ◌∷◌, ◌++◌, str_eq, if◌then◌else◌,
}
use descartes_legacy.Prelude.Text.{Lacks}
use descartes_legacy.Prelude.Result.{Error}
use descartes_legacy.Base.ZooKeeper.{Conn, dir, mkdir_recursive, ignore}

-- The path of some levels, the last level first.
abbrev pub path_of : List String → String
path_of [] = ""
path_of (r ∷ rs) = append (path_of rs) (append "/" r)

-- No level is empty or has a slash.
abbrev pub Clean : List String → Type 0
Clean [] = Unit {0}
Clean (r ∷ rs) = Lacks b'/' r × (str_eq r "" ≡ false) × Clean rs

abbrev pub create_next : (conn : Conn) → String → Error × conn.E → Error × conn.E
create_next conn node (some m, e) = (some m, e)
create_next conn node (none, e) =
    let (made, e') = conn.create node none false e in
    (ignore conn conn.err_node_exists true made, e')

-- Each level is made, from the top, until one fails.
abbrev pub make_levels : (conn : Conn) → List String → conn.E → Error × conn.E
make_levels conn [] e = (none, e)
make_levels conn (r ∷ rs) e = create_next conn (path_of (r ∷ rs)) (make_levels conn rs e)

-- What mkdirRecursive does before it creates the node.
abbrev above : (conn : Conn) → ℕ → String → conn.E → Error × conn.E
above conn n node e =
    if str_eq (dir node) "/" then (none, e) else mkdir_recursive conn n (dir node) e
