-- ===== src/Base/KafkaClient/Offsets.antt =====
-- GetProducerOffset and GetLastBlock of base/kafka.go.
use mathlib.Core.Bool.{true≢false}
use descartes_legacy.Prelude.{
  ℕ, suc, ◌<◌, ◌≡◌, ◌≢◌, refl, ap, sym, ◌∙◌, String, Option, none, some, List, [], ◌∷◌, ◌++◌, arith,
  inl, inr, Bool-cases, All,
}
use descartes_legacy.Prelude.Int.{ℤ, pos, eqb_ℤ, eqb_ℤ_iff, ◌-ℤ◌}
use descartes_legacy.Prelude.Result.{ok, done}
use descartes_legacy.Base.Data.{Bytes}
use descartes_legacy.Base.KafkaClient.{
  Cluster, Block, leader, max_retry, topic_or_partition_not_exist, get_producer_offset, find_block,
  fetch_block, last_block_at, get_last_block, previous, found_block, newest_offset,
  offset_of_leader,
}
use descartes_legacy.Base.KafkaClient.Leader.{FailsFor, asked, leader-finds, leader-fails}

-- The value is that of the first block at the offset, or nil where there is none.
abbrev pub IsValueAt : ℤ → List Block → Option Bytes → Type 0
IsValueAt o blocks none = All (λ (b : Block). b.offset ≢ o) blocks
IsValueAt o blocks (some v) =
    (before : List Block) × (block : Block) × (after : List Block) × (blocks
      ≡ before ++ block ∷ after)
    × All (λ (b : Block). b.offset ≢ o) before
    × (block.offset ≡ o)
    × (block.value ≡ v)

IsValueAt-later :
    (o : ℤ) (x : Block) (blocks : List Block) (v : Option Bytes)
    → x.offset ≢ o
    → IsValueAt o blocks v
    → IsValueAt o (x ∷ blocks) v
IsValueAt-later o x blocks none n h = (n, h)
IsValueAt-later o x blocks (some v) n (before, block, after, e, a, at, is) =
    (x ∷ before, block, after, ap (λ l. x ∷ l) e, (n, a), at, is)

find_block-IsValueAt :
    (cluster : Cluster) (o : ℤ) (blocks : List Block)
    → IsValueAt o blocks (find_block cluster o blocks)
unfolding find_block
find_block-IsValueAt cluster o [] = tt
find_block-IsValueAt cluster o (x ∷ blocks) = elim (Bool-cases (eqb_ℤ x.offset o)) [
  | inl e ↦ rw (e, find_block) ([], x, blocks, refl, tt, (eqb_ℤ_iff x.offset o).0 e, refl)
  | inr e ↦
      rw (e, find_block)
        (IsValueAt-later o x blocks (find_block cluster o blocks)
          (λ q. true≢false (sym ((eqb_ℤ_iff x.offset o).1 q) ∙ e))
          (find_block-IsValueAt cluster o blocks))
]

module _ (cluster : Cluster) (topic : String) (partition : ℤ) where
  open cluster use {E, Broker}

  -- The offset of a topic without a leader.
  pub get_producer_offset-failed :
      (env env' : E) (m : String)
      → leader cluster topic partition env ≡ (none, some m, env')
      → get_producer_offset cluster topic partition env
        ≡ done (topic_or_partition_not_exist, some m, env')
  unfolding get_producer_offset
  get_producer_offset-failed env env' m h = ap (offset_of_leader cluster topic partition) h

  get_producer_offset-newest :
      (env env₁ env₂ : E) (b : Broker) (o : ℤ) (os : List ℤ)
      → leader cluster topic partition env ≡ (some b, none, env₁)
      → cluster.available_offsets b topic partition env₁ ≡ (ok (o ∷ os), env₂)
      → get_producer_offset cluster topic partition env ≡ done (o, none, env₂)
  unfolding get_producer_offset
  get_producer_offset-newest env env₁ env₂ b o os l a =
      ap (offset_of_leader cluster topic partition) l ∙ ap (newest_offset cluster) a

  previous-suc : (n : ℕ) → previous cluster (pos (suc n)) ≡ pos n
  unfolding ◌-ℤ◌
  previous-suc n = ground arith

  last_block_at-value :
      (env env₁ env₂ : E) (b : Broker) (n : ℕ) (blocks : List Block)
      → leader cluster topic partition env ≡ (some b, none, env₁)
      → cluster.fetch b topic partition (pos n) env₁ ≡ (ok blocks, env₂)
      → last_block_at cluster topic partition (done (pos (suc n), none, env))
        ≡ done (find_block cluster (pos n) blocks, none, env₂)
  last_block_at-value env env₁ env₂ b n blocks l f =
      ap (λ o. fetch_block cluster topic partition o (leader cluster topic partition env))
        (previous-suc n)
      ∙ ap (fetch_block cluster topic partition (pos n)) l
      ∙ ap (found_block cluster (pos n)) f

  -- After ten failed questions for the leader GetLastBlock returns neither data nor an error, as
  -- for a topic that does not exist.
  pub get_last_block-hides_errors :
      (env : E)
      → FailsFor cluster topic partition max_retry env
      → get_last_block cluster topic partition env
        ≡ done (none, none, asked cluster topic partition max_retry env)
  unfolding get_last_block
  get_last_block-hides_errors env f =
      let (m, h) = leader-fails cluster topic partition env f in
      ap (last_block_at cluster topic partition) (get_producer_offset-failed env _ m h)

  -- If at both searches for the leader the first failures, fewer than ten, are transient and a
  -- broker is named next, the newest offset is `n + 1`, and the fetch at the offset `n` is answered,
  -- GetLastBlock returns no error, and the value of the first fetched block whose offset is `n`, or
  -- nil if no fetched block has this offset.
  pub get_last_block-finds :
      (k k' : ℕ) (env env₂ env₄ : E) (b b' : Broker) (n : ℕ) (os : List ℤ) (blocks : List Block)
      → k < max_retry
      → FailsFor cluster topic partition k env
      → (cluster.leader topic partition (asked cluster topic partition k env)).0 ≡ ok b
      → cluster.available_offsets b topic partition (asked cluster topic partition (suc k) env)
        ≡ (ok (pos (suc n) ∷ os), env₂)
      → k' < max_retry
      → FailsFor cluster topic partition k' env₂
      → (cluster.leader topic partition (asked cluster topic partition k' env₂)).0 ≡ ok b'
      → cluster.fetch b' topic partition (pos n) (asked cluster topic partition (suc k') env₂)
        ≡ (ok blocks, env₄)
      → (v : Option Bytes) × (get_last_block cluster topic partition env ≡ done (v, none, env₄))
        × IsValueAt (pos n) blocks v
  unfolding get_last_block
  get_last_block-finds k k' env env₂ env₄ b b' n os blocks lt f l o lt' f' l' fetched =
      let first = leader-finds cluster topic partition k env b lt f l in
      let second = leader-finds cluster topic partition k' env₂ b' lt' f' l' in
      (
        find_block cluster (pos n) blocks,
        ap (last_block_at cluster topic partition) (
              get_producer_offset-newest env (asked cluster topic partition (suc k) env) env₂ b
                (pos (suc n)) os first o)
            ∙ last_block_at-value env₂ (asked cluster topic partition (suc k') env₂) env₄ b' n
                blocks second fetched,
        find_block-IsValueAt cluster (pos n) blocks,
      )
