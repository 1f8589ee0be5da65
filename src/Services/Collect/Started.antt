-- ===== src/Services/Collect/Started.antt =====
-- Which jobs a collector of services/collect_service.go calls.
use descartes_legacy.Prelude.{
  ℕ, zero, suc, ◌≡◌, refl, sym, ◌∙◌, ap, String, not, ◌&&◌, Option, none, some, List, [], ◌∷◌, ◌++◌,
  if◌then◌else◌, str_eq, Bool-cases, Option-cases, inl, inr, get_elem?, All, All-map, All-append,
}
use descartes_legacy.Prelude.Map.{lookup, has, insert, index, lookup-insert}
use descartes_legacy.Prelude.Result.{Result, ok, err}
use descartes_legacy.Base.Consts
use descartes_legacy.Base.Data.{Data, Bytes, BaseConfig}
use descartes_legacy.Services.Collect.{
  JobFactory, CollectService, call_job, begin_job, run_task, handle_raw, handle_loop, handle_tasks,
}

-- The list holds the element.
abbrev pub Holds {ℓ} : {A : Type ℓ} → List A → A → Type ℓ
Holds l x = (i : ℕ) × (get_elem? l i ≡ some x)

Holds-left {ℓ} : {A : Type ℓ} (l k : List A) (x : A) → Holds l x → Holds (l ++ k) x
Holds-left [] k x (i, e) = absurd (cc e)
Holds-left (y ∷ l) k x (zero, e) = (0, e)
Holds-left (y ∷ l) k x (suc i, e) = let (j, f) = Holds-left l k x (i, e) in (suc j, f)

Holds_last {ℓ} : {A : Type ℓ} (l : List A) (x : A) → Holds (l ++ x ∷ []) x
Holds_last [] x = (0, refl)
Holds_last (y ∷ l) x = let (j, f) = Holds_last l x in (suc j, f)

module _ (factory : JobFactory) (unmarshal : Bytes → Result BaseConfig) where
  -- The jobs in the table and those that were called have been started.
  pub record IsStarted (cs : CollectService factory unmarshal) : Type 0 where
    pub table : (k : String) (j : factory.J) → lookup k cs.jobs ≡ some j → Holds cs.started j
    pub calls : All (Holds cs.started) cs.called

  IsStarted-call_job :
      (j : factory.J) (cs : CollectService factory unmarshal)
      → Holds cs.started j
      → IsStarted cs
      → IsStarted (call_job factory unmarshal j cs)
  IsStarted-call_job j cs h s = record {
    table = s.table;
    calls = All-append (Holds cs.started) cs.called (j ∷ []) s.calls (h, tt);
  }

  IsStarted-begin_job :
      (key : String) (r : Option factory.J × factory.F) (cs : CollectService factory unmarshal)
      → IsStarted cs
      → IsStarted (begin_job factory unmarshal key r cs).1
  IsStarted-begin_job key (none, f) cs s = record { table = s.table; calls = s.calls }
  IsStarted-begin_job key (some j, f) cs s = record {
    table = λ k i e. elim (Bool-cases (str_eq key k)) [
      | inl c ↦
          let same : some j ≡ some i =
            ap (λ b. if b then some j else lookup k cs.jobs) (sym c)
            ∙ sym (lookup-insert key k j cs.jobs)
            ∙ e in
          let q : j ≡ i = cc same in rw (← q) (Holds_last cs.started j)
      | inr c ↦
          let old : lookup k cs.jobs ≡ some i =
            ap (λ b. if b then some j else lookup k cs.jobs) (sym c)
            ∙ sym (lookup-insert key k j cs.jobs)
            ∙ e in
          Holds-left cs.started (j ∷ []) i (s.table k i old)
    ];
    calls =
        All-append (Holds (cs.started ++ j ∷ [])) cs.called (j ∷ [])
          (All-map (λ i h. Holds-left cs.started (j ∷ []) i h) cs.called s.calls)
          (Holds_last cs.started j, tt);
  }

  IsStarted-run_task :
      (config : BaseConfig) (cs : CollectService factory unmarshal)
      → IsStarted cs
      → IsStarted (run_task factory unmarshal config cs).1
  unfolding run_task
  IsStarted-run_task config cs s =
      elim (Bool-cases (str_eq (index Consts.app config) Consts.kafka_app)) [
        | inl c ↦
            let config' = insert Consts.long_run "1" config in
            rw c (
              IsStarted-begin_job (index Consts.task_config_key config')
                (factory.create_job (index Consts.app config') config' cs.job_factory) cs s)
        | inr c ↦ elim (Option-cases (lookup (index Consts.task_config_key config) cs.jobs)) [
          | inl e ↦
              rw (c, e)
                (IsStarted-begin_job (index Consts.task_config_key config)
                  (factory.create_job (index Consts.app config) config cs.job_factory) cs s)
          | inr (j, e) ↦
              rw (c, e)
                (IsStarted-call_job j cs (s.table (index Consts.task_config_key config) j e) s)
        ]
      ]

  IsStarted-handle_raw :
      (to : String) (r : Result BaseConfig) (cs : CollectService factory unmarshal)
      → IsStarted cs
      → IsStarted (handle_raw factory unmarshal to r cs).1
  IsStarted-handle_raw to (err m) cs s = s
  IsStarted-handle_raw to (ok config) cs s = elim (Bool-cases (has Consts.app config)) [
    | inr c ↦ rw c s
    | inl c ↦ elim (Bool-cases (not (str_eq to cs.host) && not (str_eq to Consts.broadcast))) [
      | inl f ↦ rw (c, f) s
      | inr f ↦ rw (c, f) (IsStarted-run_task config cs s)
    ]
  ]

  IsStarted-handle_loop :
      (to : String) (raws : List Bytes) (cs : CollectService factory unmarshal)
      → IsStarted cs
      → IsStarted (handle_loop factory unmarshal to raws cs)
  unfolding handle_loop
  IsStarted-handle_loop to [] cs s = s
  IsStarted-handle_loop to (raw ∷ raws) cs s =
      let r = handle_raw factory unmarshal to (unmarshal raw) cs in
      let s' = IsStarted-handle_raw to (unmarshal raw) cs s in
      elim (Bool-cases r.0) [
        | inl c ↦ rw c (IsStarted-handle_loop to raws r.1 s')
        | inr c ↦ rw c s'
      ]

  -- Whatever data arrive, the jobs that are called, and those in the table, were started before.
  pub handle_tasks-IsStarted :
      (d : Data) (cs : CollectService factory unmarshal)
      → IsStarted cs
      → IsStarted (handle_tasks factory unmarshal d cs)
  unfolding handle_tasks
  handle_tasks-IsStarted d cs s = elim (Bool-cases (has Consts.host d.meta_info)) [
    | inl c ↦ rw c (IsStarted-handle_loop (index Consts.host d.meta_info) d.raw_data cs s)
    | inr c ↦ rw c s
  ]
