-- ===== src/Services/Collect/Foreign.antt =====
-- The tasks that services/collect_service.go leaves to other hosts.
use descartes_legacy.Prelude.{
  ◌≡◌, refl, ◌∙◌, ap, String, false, List, [], ◌∷◌, str_eq, Bool-cases, inl, inr,
}
use descartes_legacy.Prelude.Map.{has, index}
use descartes_legacy.Prelude.Result.{Result, ok, err}
use descartes_legacy.Base.Consts
use descartes_legacy.Base.Data.{Data, Bytes, BaseConfig}
use descartes_legacy.Services.Collect.{
  JobFactory, CollectService, handle_raw, handle_loop, handle_tasks,
}

module _ (factory : JobFactory) (unmarshal : Bytes → Result BaseConfig) where
  foreign_raw :
      (to : String) (r : Result BaseConfig) (cs : CollectService factory unmarshal)
      → str_eq to cs.host ≡ false
      → str_eq to Consts.broadcast ≡ false
      → (handle_raw factory unmarshal to r cs).1 ≡ cs
  foreign_raw to (err m) cs h b = refl
  foreign_raw to (ok config) cs h b = elim (Bool-cases (has Consts.app config)) [
    | inl c ↦ rw (c, h, b) refl
    | inr c ↦ rw c refl
  ]

  foreign_loop :
      (to : String) (raws : List Bytes) (cs : CollectService factory unmarshal)
      → str_eq to cs.host ≡ false
      → str_eq to Consts.broadcast ≡ false
      → handle_loop factory unmarshal to raws cs ≡ cs
  unfolding handle_loop
  foreign_loop to [] cs h b = refl
  foreign_loop to (raw ∷ raws) cs h b =
      let same = foreign_raw to (unmarshal raw) cs h b in
      elim (Bool-cases (handle_raw factory unmarshal to (unmarshal raw) cs).0) [
        | inl c ↦
            rw c (ap (handle_loop factory unmarshal to raws) same ∙ foreign_loop to raws cs h b)
        | inr c ↦ rw c same
      ]

  -- Data for another host, and not for all hosts, change nothing.
  pub handle_tasks_foreign :
      (d : Data) (cs : CollectService factory unmarshal)
      → str_eq (index Consts.host d.meta_info) cs.host ≡ false
      → str_eq (index Consts.host d.meta_info) Consts.broadcast ≡ false
      → handle_tasks factory unmarshal d cs ≡ cs
  unfolding handle_tasks
  handle_tasks_foreign d cs h b = elim (Bool-cases (has Consts.host d.meta_info)) [
    | inl c ↦ rw c (foreign_loop (index Consts.host d.meta_info) d.raw_data cs h b)
    | inr c ↦ rw c refl
  ]
