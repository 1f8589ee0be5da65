-- ===== src/Base/KafkaClient/Tests.antt =====
-- A cluster that counts the calls: the leader of the topic `t` answers the fourth question, and the
-- one of `gone` does not exist then. No other topic has a leader, and `broken` has no partitions.
use descartes_legacy.Prelude.{
  ℕ, suc, ◌≡◌, refl, String, Option, none, some, List, [], ◌∷◌, ◌++◌, arith, ltb, str_eq,
  if◌then◌else◌,
}
use descartes_legacy.Prelude.Int.{ℤ, pos, negsuc, ◌-ℤ◌}
use descartes_legacy.Prelude.Map.{lookup}
use descartes_legacy.Prelude.Text.{contains}
use descartes_legacy.Prelude.Result.{Result, ok, err, done}
use descartes_legacy.Base.Data.{Bytes}
use descartes_legacy.Base.KafkaClient.{
  Cluster, max_retry, leader, leader_loop, get_last_block, find_block, topic_partitions,
  collect_partitions, listed, get_producer_offset,
}
use descartes_legacy.Base.KafkaClient.Leader.{FailsFor, leader-finds, leader-fails}
use descartes_legacy.Base.KafkaClient.Offsets.{
  get_last_block-hides_errors, get_last_block-finds, IsValueAt,
}
use descartes_legacy.Base.KafkaClient.Topics.{collect_partitions-lookup, or_nil, contributed}

abbrev answer : String → Result (List ℤ)
answer topic = if str_eq topic "broken" then err "no partitions" else ok (pos 0 ∷ pos 1 ∷ [])

abbrev leader_at : String → ℕ → Result ℕ
leader_at topic n =
    if ltb n 3
    then err "no leader yet"
    else if str_eq topic "t"
    then ok 7
    else if str_eq topic "gone"
    then err "topic does not exist"
    else err "no leader yet"

abbrev cluster : Cluster
cluster = record {
  E = ℕ;
  Broker = ℕ;
  offset_newest = negsuc 0;
  offset_oldest = negsuc 1;
  topics = λ n. (ok ("t" ∷ []), suc n);
  partitions = λ topic n. (answer topic, suc n);
  coordinator = λ group n. (ok 7, suc n);
  fetch_offset = λ broker group topic partition n. (ok (pos 3), suc n);
  leader = λ topic partition n. (leader_at topic n, suc n);
  available_offsets = λ broker topic partition n. (ok (pos 5 ∷ []), suc n);
  fetch = λ broker topic partition offset n. (
    ok (record { offset = pos 3; value = "old" } ∷ record { offset = pos 4; value = "last" } ∷ []),
    suc n,
  );
}

last_value : get_last_block cluster "t" (pos 0) 0 ≡ done (some "last", none, 7)
unfolding get_last_block get_producer_offset leader leader_loop find_block contains ◌-ℤ◌
last_value = refl

leader-finds_example : leader cluster "t" (pos 0) 0 ≡ (some 7, none, 4)
unfolding contains
leader-finds_example =
    leader-finds cluster "t" (pos 0) 3 0 7 (omega arith) (refl, (refl, (refl, tt))) refl

never : FailsFor cluster "x" (pos 0) max_retry 0
unfolding contains
never = (refl, (refl, (refl, (refl, (refl, (refl, (refl, (refl, (refl, (refl, tt))))))))))

leader-fails_example : (m : String) × (leader cluster "x" (pos 0) 0 ≡ (none, some m, 10))
leader-fails_example = leader-fails cluster "x" (pos 0) 0 never

get_last_block-hides_errors_example : get_last_block cluster "x" (pos 0) 0 ≡ done (none, none, 10)
get_last_block-hides_errors_example = get_last_block-hides_errors cluster "x" (pos 0) 0 never

get_last_block-finds_example :
    (v : Option Bytes) × (get_last_block cluster "t" (pos 0) 0 ≡ done (v, none, 7))
    × IsValueAt
        (pos 4)
        (record { offset = pos 3; value = "old" } ∷ record { offset = pos 4; value = "last" } ∷ [])
        v
unfolding contains
get_last_block-finds_example =
    get_last_block-finds cluster "t" (pos 0) 3 0 0 5 7 7 7 4 []
      (record { offset = pos 3; value = "old" } ∷ record { offset = pos 4; value = "last" } ∷ [])
      (omega arith) (refl, (refl, (refl, tt))) refl refl (omega arith) tt refl refl

-- The partitions of the topic cannot be read, and there is no error.
no_error : (topic_partitions cluster "broken" 0).1 ≡ none
unfolding topic_partitions collect_partitions listed
no_error = refl

collect_partitions-lookup_example :
    or_nil (lookup "t" (collect_partitions cluster ("t" ∷ "broken" ∷ []) [] 0).0)
    ≡ [] ++ contributed cluster answer (λ topic n. refl) "t" ("t" ∷ "broken" ∷ [])
unfolding lookup
collect_partitions-lookup_example =
    collect_partitions-lookup cluster answer (λ topic n. refl) "t" ("t" ∷ "broken" ∷ []) [] 0
