-- ===== src/Base/KafkaClient/Leader.antt =====
-- The attempts of Leader in base/kafka.go.
use descartes_legacy.Prelude.{
  ℕ, zero, suc, ◌<◌, String, ◌≡◌, refl, true, false, Option, none, some, arith,
}
use descartes_legacy.Prelude.Int.{ℤ}
use descartes_legacy.Prelude.Text.{contains}
use descartes_legacy.Prelude.Result.{Result, ok, err, Error}
use descartes_legacy.Base.KafkaClient.{Cluster, leader, leader_loop, max_retry}

module _ (cluster : Cluster) (topic : String) (partition : ℤ) where
  open cluster use {E, Broker}

  -- The cluster after `k` questions for the leader.
  abbrev pub asked : ℕ → E → E
  asked zero env = env
  asked (suc k) env = asked k (cluster.leader topic partition env).1

  -- An answer that is worth another attempt.
  abbrev pub IsTransient : Result Broker → Type 0
  IsTransient (ok b) = ⊥
  IsTransient (err m) = contains m "does not exist" ≡ false

  -- The first `k` answers are transient failures.
  abbrev pub FailsFor : ℕ → E → Type 0
  FailsFor zero env = Unit {0}
  FailsFor (suc k) env =
      IsTransient (cluster.leader topic partition env).0
      × FailsFor k (cluster.leader topic partition env).1

  transient_error :
      (r : Result Broker)
      → IsTransient r
      → (m : String) × (r ≡ err m) × (contains m "does not exist" ≡ false)
  transient_error (ok b) h = absurd h
  transient_error (err m) h = (m, refl, h)

  leader_loop-finds :
      (k n : ℕ) (l : Option Broker) (e : Error) (env : E) (b : Broker)
      → k < n
      → FailsFor k env
      → (cluster.leader topic partition (asked k env)).0 ≡ ok b
      → leader_loop cluster n topic partition l e env ≡ (some b, none, asked (suc k) env)
  unfolding leader_loop
  leader_loop-finds k zero l e env b lt f h = elim lt [ ]
  leader_loop-finds zero (suc n) l e env b lt f h = rw (h, leader_loop) refl
  leader_loop-finds (suc k) (suc n) l e env b lt f h =
      let (m, a, t) = transient_error (cluster.leader topic partition env).0 f.0 in
      rw (a, leader_loop)
        (rw t (
          leader_loop-finds k n none (some m) (cluster.leader topic partition env).1 b (omega arith)
            f.1 h))

  leader_loop-missing :
      (k n : ℕ) (l : Option Broker) (e : Error) (env : E) (m : String)
      → k < n
      → FailsFor k env
      → (cluster.leader topic partition (asked k env)).0 ≡ err m
      → contains m "does not exist" ≡ true
      → leader_loop cluster n topic partition l e env ≡ (none, none, asked (suc k) env)
  unfolding leader_loop
  leader_loop-missing k zero l e env m lt f h c = elim lt [ ]
  leader_loop-missing zero (suc n) l e env m lt f h c = rw (h, leader_loop) (rw c refl)
  leader_loop-missing (suc k) (suc n) l e env m lt f h c =
      let (m', a, t) = transient_error (cluster.leader topic partition env).0 f.0 in
      rw (a, leader_loop)
        (rw t (
          leader_loop-missing k n none (some m') (cluster.leader topic partition env).1 m
            (omega arith) f.1 h c))

  leader_loop-fails :
      (n : ℕ) (m₀ : String) (env : E)
      → FailsFor n env
      → (m : String) × (leader_loop cluster n topic partition none (some m₀) env
          ≡ (none, some m, asked n env))
  unfolding leader_loop
  leader_loop-fails zero m₀ env f = (m₀, refl)
  leader_loop-fails (suc n) m₀ env f =
      let (m, a, t) = transient_error (cluster.leader topic partition env).0 f.0 in
      let (m', h) = leader_loop-fails n m (cluster.leader topic partition env).1 f.1 in
      (m', rw (a, leader_loop) (rw t h))

  -- Leader returns the first broker that answers within ten attempts.
  pub leader-finds :
      (k : ℕ) (env : E) (b : Broker)
      → k < max_retry
      → FailsFor k env
      → (cluster.leader topic partition (asked k env)).0 ≡ ok b
      → leader cluster topic partition env ≡ (some b, none, asked (suc k) env)
  unfolding leader
  leader-finds k env b = leader_loop-finds k max_retry none none env b

  -- An answer that the topic does not exist ends the attempts, with neither a broker nor an error.
  leader-missing :
      (k : ℕ) (env : E) (m : String)
      → k < max_retry
      → FailsFor k env
      → (cluster.leader topic partition (asked k env)).0 ≡ err m
      → contains m "does not exist" ≡ true
      → leader cluster topic partition env ≡ (none, none, asked (suc k) env)
  unfolding leader
  leader-missing k env m = leader_loop-missing k max_retry none none env m

  -- Ten transient failures make an error, after exactly ten questions.
  pub leader-fails :
      (env : E)
      → FailsFor max_retry env
      → (m : String) × (leader cluster topic partition env ≡ (none, some m, asked max_retry env))
  unfolding leader leader_loop
  leader-fails env f =
      let (m, a, t) = transient_error (cluster.leader topic partition env).0 f.0 in
      let (m', h) = leader_loop-fails 9 m (cluster.leader topic partition env).1 f.1 in
      (m', rw (a, leader_loop) (rw t h))
