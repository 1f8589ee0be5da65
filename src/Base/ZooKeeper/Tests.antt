-- ===== src/Base/ZooKeeper/Tests.antt =====
-- An ensemble with one node that changes, two directories and two participants.
use descartes_legacy.Prelude.{
  ℕ, ◌≡◌, refl, String, Bool, true, Option, none, some, List, [], ◌∷◌, if◌then◌else◌, str_eq,
  get_elem?, Bool-cases, inl, inr,
}
use descartes_legacy.Prelude.Int.{ℤ, pos}
use descartes_legacy.Prelude.Map.{index, lookup}
use descartes_legacy.Prelude.Text.{split, join}
use descartes_legacy.Prelude.Decimal.{parse_int32}
use descartes_legacy.Prelude.Result.{Result, ok, err, Error, done}
use descartes_legacy.Base.Consts
use descartes_legacy.Base.Data.{Bytes, BaseConfig}
use descartes_legacy.Base.ZooKeeper.{
  Conn, sequence_number, sequence_numbers, is_minimal, is_leader_among, is_leader, dir, delete_node,
  create_node, mkdir_recursive,
}
use descartes_legacy.Base.ZooKeeper.Election.{leader_exists, leader_unique}
use descartes_legacy.Base.ZooKeeper.Checkpointer.{
  get_checkpoint, write_checkpoint, read_after_write,
}

abbrev exists : String
exists = "zk: node already exists"

abbrev missing : String
missing = "zk: node does not exist"

abbrev node_value : Option (Option Bytes) → Result (Option Bytes × ℤ)
node_value none = err missing
node_value (some v) = ok (v, pos 0)

abbrev node_created : Option Bytes → Option (Option Bytes) → Error × Option (Option Bytes)
node_created v none = (none, some v)
node_created v (some w) = (some exists, some w)

abbrev participants : List String
participants = "_c_1-node_0000000010" ∷ "_c_2-node_0000000007" ∷ []

abbrev conn : Conn
conn = record {
  E = Option (Option Bytes);
  err_no_node = missing;
  err_node_exists = exists;
  create_protected_ephemeral_sequential = λ path e. (ok "_c_1-node_0000000010", e);
  children = λ path e. (ok participants, e);
  get = λ path e. (if str_eq path "/a/k" then node_value e else ok (none, pos 0), e);
  create = λ path v ephemeral e. if str_eq path "/a/k" then node_created v e else (some exists, e);
  delete = λ path version e. (none, if str_eq path "/a/k" then none else e);
  set = λ path v version e. (none, if str_eq path "/a/k" then some v else e);
}

created_value :
    (v : Option Bytes) (e : Option (Option Bytes))
    → (node_created v e).0 ≡ none
    → (version : ℤ) × (node_value (node_created v e).1 ≡ ok (v, version))
created_value v none h = (pos 0, refl)
created_value v (some w) h = absurd (cc h)

created :
    (path : String) (v : Option Bytes) (ephemeral : Bool) (e : Option (Option Bytes))
    → (conn.create path v ephemeral e).0 ≡ none
    → (version : ℤ) × ((conn.get path (conn.create path v ephemeral e).1).0 ≡ ok (v, version))
created path v ephemeral e = elim (Bool-cases (str_eq path "/a/k")) [
  | inl c ↦ rw c (created_value v e)
  | inr c ↦ rw c (λ h. absurd (cc h))
]

abbrev key_info : BaseConfig
key_info = (Consts.key, "/a/k") ∷ []

above_k : dir "/a/k" ≡ "/a"
unfolding dir split join
above_k = refl

rewritten : (write_checkpoint conn key_info "new" (some (some "old"))).0 ≡ none
unfolding write_checkpoint delete_node create_node mkdir_recursive dir split join index lookup
rewritten = refl

read_after_write_example :
    (get_checkpoint conn key_info (write_checkpoint conn key_info "new" (some (some "old"))).1).0
    ≡ ok (some "new")
read_after_write_example =
    read_after_write conn created key_info "new" (some (some "old")) rewritten

numbers : sequence_numbers participants ≡ done (ok (pos 10 ∷ pos 7 ∷ []))
unfolding sequence_numbers sequence_number parse_int32
numbers = refl

second_leads : (is_leader conn [] "_c_2-node_0000000007" none).0 ≡ done (ok true)
unfolding is_leader is_leader_among is_minimal sequence_numbers sequence_number parse_int32
second_leads = refl

leader_exists_example :
    (i : ℕ) × (guid : String) × (get_elem? participants i ≡ some guid)
    × ((is_leader conn [] guid none).0 ≡ done (ok true))
leader_exists_example =
    leader_exists conn [] "_c_1-node_0000000010" ("_c_2-node_0000000007" ∷ []) (pos 10 ∷ pos 7 ∷ [])
      none refl numbers

leader_unique_example :
    sequence_number "_c_2-node_0000000007" ≡ sequence_number "_c_2-node_0000000007"
leader_unique_example =
    leader_unique conn [] 1 1 "_c_2-node_0000000007" "_c_2-node_0000000007" participants
      (pos 10 ∷ pos 7 ∷ []) none none refl refl numbers refl refl second_leads second_leads
