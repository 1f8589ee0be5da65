-- ===== src/Base/KafkaClient/Topics.antt =====
-- TopicPartitions of base/kafka.go.
use descartes_legacy.Prelude.{
  ◌≡◌, ◌∙◌, sym, String, Option, none, some, List, [], ◌∷◌, ◌++◌, append-nil, inl, inr, arith,
  Bool-cases, Option-cases, append_assoc, if◌then◌else◌, str_eq, eq_iff,
}
use descartes_legacy.Prelude.Int.{ℤ}
use descartes_legacy.Prelude.Map.{Map, lookup, lookup-insert}
use descartes_legacy.Prelude.Result.{Result, ok, err, Result-cases}
use descartes_legacy.Base.KafkaClient.{Cluster, add_partitions, collect_partitions}

-- What a lookup of a topic adds to, where a missing one counts as the empty list.
abbrev pub or_nil : Option (List ℤ) → List ℤ
or_nil none = []
or_nil (some ps) = ps

abbrev pub answer_list : Result (List ℤ) → List ℤ
answer_list (ok ps) = ps
answer_list (err _) = []

module _ (cluster : Cluster) where
  open cluster use {E}

  lookup-add_partitions :
      (t topic : String) (ps : List ℤ) (m : Map (List ℤ))
      → or_nil (lookup t (add_partitions cluster topic ps m))
        ≡ (if str_eq topic t then or_nil (lookup t m) ++ ps else or_nil (lookup t m))
  unfolding add_partitions
  lookup-add_partitions t topic ps m = elim (Option-cases (lookup topic m)) [
    | inl e ↦
        rw (e, add_partitions) (rw (lookup-insert topic t ps m) (ground (arith, e, eq_iff topic t)))
    | inr (qs, e) ↦
        rw (e, add_partitions)
          (rw (lookup-insert topic t (qs ++ ps) m) (ground (arith, e, eq_iff topic t)))
  ]

  module _ (answer : String → Result (List ℤ))
      (stable : (topic : String) (env : E) → (cluster.partitions topic env).0 ≡ answer topic) where
    -- What the topics of a list with the given name contribute, in order.
    abbrev pub contributed : String → List String → List ℤ
    contributed t [] = []
    contributed t (topic ∷ topics) =
        if str_eq topic ""
        then contributed t topics
        else (if str_eq topic t then answer_list (answer topic) else []) ++ contributed t topics

    added :
        (t topic : String) (topics : List String) (ps : List ℤ) (m : Map (List ℤ))
        → or_nil (lookup t (add_partitions cluster topic ps m)) ++ contributed t topics
          ≡ or_nil (lookup t m) ++ ((if str_eq topic t then ps else []) ++ contributed t topics)
    added t topic topics ps m =
        rw (lookup-add_partitions t topic ps m) (elim (Bool-cases (str_eq topic t)) [
          | inl x ↦ rw x (append_assoc (or_nil (lookup t m)) ps (contributed t topics))
          | inr x ↦ rw x
        ])

    -- With the cluster's answers stable, each topic is listed with the partitions that were there
    -- and those that the cluster answers for each naming of it; a failing topic adds none.
    pub collect_partitions-lookup :
        (t : String) (topics : List String) (m : Map (List ℤ)) (env : E)
        → or_nil (lookup t (collect_partitions cluster topics m env).0)
          ≡ or_nil (lookup t m) ++ contributed t topics
    unfolding collect_partitions
    collect_partitions-lookup t [] m env = sym (append-nil (or_nil (lookup t m)))
    collect_partitions-lookup t (topic ∷ topics) m env =
        let env' = (cluster.partitions topic env).1 in
        let no_more : or_nil (lookup t m) ++ contributed t topics
            ≡ or_nil (lookup t m) ++ ((if str_eq topic t then [] else []) ++ contributed t topics) =
          elim (Bool-cases (str_eq topic t)) [ inl x ↦ rw x | inr x ↦ rw x ] in
        elim (Bool-cases (str_eq topic "")) [
          | inl e ↦ rw e (collect_partitions-lookup t topics m env)
          | inr e ↦ elim (Result-cases (answer topic)) [
            | inr (w, a) ↦
                rw (e, stable topic env, a) (collect_partitions-lookup t topics m env' ∙ no_more)
            | inl (ps, a) ↦
                rw (e, stable topic env, a)
                  (collect_partitions-lookup t topics (add_partitions cluster topic ps m) env'
                    ∙ added t topic topics ps m)
          ]
        ]
