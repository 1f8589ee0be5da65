-- ===== src/Base/ZooKeeper/Election.antt =====
-- The election of base/zookeeper_client.go: one participant leads.
use descartes_legacy.Prelude.{
  ℕ, zero, suc, ◌≡◌, refl, sym, ◌∙◌, ap, String, true, false, some, List, [], ◌∷◌, arith, get_elem?,
  Bool-cases, inl, inr,
}
use descartes_legacy.Prelude.Int.{ℤ, ltb_ℤ, eq_of_parts}
use descartes_legacy.Prelude.Map.{index}
use descartes_legacy.Prelude.Result.{Result, ok, err, Outcome, done, panic}
use descartes_legacy.Base.Consts
use descartes_legacy.Base.Data.{BaseConfig}
use descartes_legacy.Base.ZooKeeper.{
  Conn, sequence_number, sequence_numbers, and_then, is_minimal, is_leader_among, is_leader,
}

and_then-cases :
    (n : ℤ) (r : Outcome (Result (List ℤ))) (ns : List ℤ)
    → and_then n r ≡ done (ok ns)
    → (ns' : List ℤ) × (r ≡ done (ok ns')) × (ns ≡ n ∷ ns')
and_then-cases n (done (ok ns')) ns h = (ns', refl, cc h)
and_then-cases n (done (err m)) ns h = absurd (cc h)
and_then-cases n (panic m) ns h = absurd (cc h)

abbrev numbers_with : Outcome (Result ℤ) → Outcome (Result (List ℤ)) → Outcome (Result (List ℤ))
numbers_with (done (ok n)) rest = and_then n rest
numbers_with (done (err m)) rest = done (err m)
numbers_with (panic m) rest = panic m

sequence_numbers-cons :
    (p : String) (ps : List String)
    → sequence_numbers (p ∷ ps) ≡ numbers_with (sequence_number p) (sequence_numbers ps)
unfolding sequence_numbers
sequence_numbers-cons p ps = by_cases (sequence_number p) refl
  where
    by_cases :
        (o : Outcome (Result ℤ))
        → sequence_number p ≡ o
        → sequence_numbers (p ∷ ps) ≡ numbers_with (sequence_number p) (sequence_numbers ps)
    by_cases (done (ok n)) e = rw (e, sequence_numbers) refl
    by_cases (done (err m)) e = rw (e, sequence_numbers) refl
    by_cases (panic m) e = rw (e, sequence_numbers) refl

numbers_with-cases :
    (o : Outcome (Result ℤ)) (r : Outcome (Result (List ℤ))) (ns : List ℤ)
    → numbers_with o r ≡ done (ok ns)
    → (n : ℤ) × (o ≡ done (ok n)) × (and_then n r ≡ done (ok ns))
numbers_with-cases (done (ok n)) r ns h = (n, refl, h)
numbers_with-cases (done (err m)) r ns h = absurd (cc h)
numbers_with-cases (panic m) r ns h = absurd (cc h)

-- The numbers of a list whose first name is `p`.
sequence_numbers-cases :
    (p : String) (ps : List String) (ns : List ℤ)
    → sequence_numbers (p ∷ ps) ≡ done (ok ns)
    → (n : ℤ) × (ns' : List ℤ) × (sequence_number p ≡ done (ok n))
      × (sequence_numbers ps ≡ done (ok ns'))
      × (ns ≡ n ∷ ns')
sequence_numbers-cases p ps ns h =
    let (n, e, a) =
      numbers_with-cases (sequence_number p) (sequence_numbers ps) ns
        (sym (sequence_numbers-cons p ps) ∙ h) in
    let (ns', r, q) = and_then-cases n (sequence_numbers ps) ns a in (n, ns', e, r, q)

number_at :
    (ps : List String) (ns : List ℤ) (i : ℕ) (p : String)
    → sequence_numbers ps ≡ done (ok ns)
    → get_elem? ps i ≡ some p
    → (n : ℤ) × (sequence_number p ≡ done (ok n)) × (get_elem? ns i ≡ some n)
number_at [] ns i p h g = absurd (cc g)
number_at (q ∷ ps) ns zero p h g =
    let (n, ns', e, r, eq) = sequence_numbers-cases q ps ns h in
    let same : q ≡ p = cc g in (n, ap sequence_number (sym same) ∙ e, rw eq refl)
number_at (q ∷ ps) ns (suc i) p h g =
    let (n, ns', e, r, eq) = sequence_numbers-cases q ps ns h in
    let (m, a, b) = number_at ps ns' i p r g in (m, a, rw eq b)

name_at :
    (ps : List String) (ns : List ℤ) (i : ℕ) (n : ℤ)
    → sequence_numbers ps ≡ done (ok ns)
    → get_elem? ns i ≡ some n
    → (p : String) × (get_elem? ps i ≡ some p) × (sequence_number p ≡ done (ok n))
unfolding sequence_numbers
name_at [] [] i n h g = absurd (cc g)
name_at [] (m ∷ ns) i n h g = absurd (cc h)
name_at (q ∷ ps) ns zero n h g =
    let (m, ns', e, r, eq) = sequence_numbers-cases q ps ns h in
    let same : m ≡ n = cc (g, eq, ap (λ l. get_elem? l 0) eq) in
    (q, refl, e ∙ ap (λ z. done (ok z)) same)
name_at (q ∷ ps) ns (suc i) n h g =
    let (m, ns', e, r, eq) = sequence_numbers-cases q ps ns h in
    name_at ps ns' i n r (sym (ap (λ l. get_elem? l (suc i)) eq) ∙ g)

is_minimal-le :
    (n : ℤ) (ns : List ℤ) (i : ℕ) (m : ℤ)
    → is_minimal n ns ≡ true
    → get_elem? ns i ≡ some m
    → ltb_ℤ m n ≡ false
unfolding is_minimal
is_minimal-le n [] i m h g = absurd (cc g)
is_minimal-le n (x ∷ ns) zero m h g = let e : x ≡ m = cc g in rw (← e) (ground (arith, h))
is_minimal-le n (x ∷ ns) (suc j) m h g = is_minimal-le n ns j m (ground (arith, h)) g

is_minimal_trans :
    (n m : ℤ) (ns : List ℤ) → ltb_ℤ m n ≡ false → is_minimal m ns ≡ true → is_minimal n ns ≡ true
unfolding is_minimal
is_minimal_trans n m [] le h = refl
is_minimal_trans n m (x ∷ ns) le h =
    let tail : is_minimal m ns ≡ true = ground (arith, h) in
    let smaller : ltb_ℤ x n ≡ false = ground (arith, le, h) in
    rw smaller (is_minimal_trans n m ns le tail)

minimal_at :
    (n : ℤ) (ns : List ℤ)
    → (i : ℕ) × (m : ℤ) × (get_elem? (n ∷ ns) i ≡ some m) × (is_minimal m (n ∷ ns) ≡ true)
unfolding is_minimal
minimal_at n [] = (0, n, refl, ground arith)
minimal_at n (x ∷ ns) =
    let (i, m, g, h) = minimal_at x ns in
    elim (Bool-cases (ltb_ℤ n m)) [
      | inl c ↦
          let le : ltb_ℤ m n ≡ false = ground (arith, c) in
          let self : ltb_ℤ n n ≡ false = ground arith in
          (0, n, refl, rw self (is_minimal_trans n m (x ∷ ns) le h))
      | inr c ↦ (suc i, m, g, rw c h)
    ]

leads_with :
    (guid : String) (ps : List String) (n : ℤ) (ns : List ℤ)
    → sequence_number guid ≡ done (ok n)
    → sequence_numbers ps ≡ done (ok ns)
    → is_leader_among guid ps ≡ done (ok (is_minimal n ns))
unfolding is_leader_among
leads_with guid ps n ns e h = rw (e, is_leader_among) (rw h refl)

module _ (conn : Conn) where
  open conn use {E}

  is_leader_lem :
      (config : BaseConfig) (guid : String) (ps : List String) (e : E)
      → (conn.children (index Consts.zoo_keeper_election_root config) e).0 ≡ ok ps
      → (is_leader conn config guid e).0 ≡ is_leader_among guid ps
  unfolding is_leader
  is_leader_lem config guid ps e h = rw (h, is_leader) refl

  -- If there are participants, and each has a name that ends in a number, one of them leads.
  pub leader_exists :
      (config : BaseConfig) (p : String) (ps : List String) (ns : List ℤ) (e : E)
      → (conn.children (index Consts.zoo_keeper_election_root config) e).0 ≡ ok (p ∷ ps)
      → sequence_numbers (p ∷ ps) ≡ done (ok ns)
      → (i : ℕ) × (guid : String) × (get_elem? (p ∷ ps) i ≡ some guid)
        × ((is_leader conn config guid e).0 ≡ done (ok true))
  leader_exists config p ps ns e c h =
      let (n, ns', a, r, q) = sequence_numbers-cases p ps ns h in
      let (i, m, g, min) = minimal_at n ns' in
      let (guid, at, num) = name_at (p ∷ ps) (n ∷ ns') i m (h ∙ ap (λ l. done (ok l)) q) g in
      (
        i,
        guid,
        at,
        is_leader_lem config guid (p ∷ ps) e c
            ∙ leads_with guid (p ∷ ps) m (n ∷ ns') num (h ∙ ap (λ l. done (ok l)) q)
            ∙ ap (λ b. done (ok b)) min,
      )

  -- Two participants that both find themselves leaders, among the same children, have the same
  -- sequence number.
  pub leader_unique :
      (config : BaseConfig) (i j : ℕ) (guid guid' : String) (ps : List String) (ns : List ℤ)
      (e e' : E)
      → (conn.children (index Consts.zoo_keeper_election_root config) e).0 ≡ ok ps
      → (conn.children (index Consts.zoo_keeper_election_root config) e').0 ≡ ok ps
      → sequence_numbers ps ≡ done (ok ns)
      → get_elem? ps i ≡ some guid
      → get_elem? ps j ≡ some guid'
      → (is_leader conn config guid e).0 ≡ done (ok true)
      → (is_leader conn config guid' e').0 ≡ done (ok true)
      → sequence_number guid ≡ sequence_number guid'
  leader_unique config i j guid guid' ps ns e e' c c' h at at' lead lead' =
      let (n, num, in_ns) = number_at ps ns i guid h at in
      let (n', num', in_ns') = number_at ps ns j guid' h at' in
      let min : is_minimal n ns ≡ true =
        cc (leads_with guid ps n ns num h, is_leader_lem config guid ps e c, lead) in
      let min' : is_minimal n' ns ≡ true =
        cc (leads_with guid' ps n' ns num' h, is_leader_lem config guid' ps e' c', lead') in
      let le = is_minimal-le n ns j n' min in_ns' in
      let le' = is_minimal-le n' ns i n min' in_ns in
      let same : n ≡ n' = eq_of_parts n n' (ground (arith, le, le')) in
      num ∙ ap (λ z. done (ok z)) same ∙ sym num'
