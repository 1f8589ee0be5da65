-- ===== src/Base/Job/Less.antt =====
-- The order of jobs in base/job.go, by which the scheduler keeps them.
use descartes_legacy.Prelude.{◌≡◌, ◌≢◌, true, false, ◌⊎◌, inl, inr, arith, Bool-cases}
use descartes_legacy.Prelude.Int.{ℤ, eqb_ℤ}
use descartes_legacy.Prelude.Order.{str_ltb_irrefl, str_ltb_trans, str_ltb_total}
use descartes_legacy.Base.Job.{BaseJob, less}

eqb_ℤ→eq : (a b : ℤ) → eqb_ℤ a b ≡ true → a ≡ b
eqb_ℤ→eq a b h = ground arith

-- No job is before itself.
less_irrefl : (a : BaseJob) → less a a ≡ false
unfolding less
less_irrefl a = ground (arith, str_ltb_irrefl a.id)

less_trans : (a b c : BaseJob) → less a b ≡ true → less b c ≡ true → less a c ≡ true
unfolding less
less_trans a b c h k = ground (arith, str_ltb_trans a.id b.id c.id)

-- Of two jobs with different ids one is before the other.
pub less_total : (a b : BaseJob) → a.id ≢ b.id → less a b ≡ false → less b a ≡ true
unfolding less
less_total a b n h = ground (arith, str_ltb_total a.id b.id)

-- Less is irreflexive and transitive, and of two jobs with different ids one is less.
pub less_strict_order :
    (a b c : BaseJob)
    → (less a a ≡ false)
      × (less a b ≡ true → less b c ≡ true → less a c ≡ true)
      × (a.id ≢ b.id → (less a b ≡ true) ⊎ (less b a ≡ true))
less_strict_order a b c = (
  less_irrefl a,
  less_trans a b c,
  λ n. elim (Bool-cases (less a b)) [ inl h ↦ inl h | inr h ↦ inr (less_total a b n h) ],
)
