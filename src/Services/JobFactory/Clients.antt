-- ===== src/Services/JobFactory/Clients.antt =====
-- The cache of Kafka clients in services/job_factory.go.
use mathlib.Core.List.{Perm}
use descartes_legacy.Prelude.{
  ◌≡◌, refl, ap, String, none, some, Option, Option-cases, inl, inr, str_eq_refl, subst,
}
use descartes_legacy.Prelude.Map.{lookup, index, insert, lookup-insert}
use descartes_legacy.Prelude.Text.{split, join}
use descartes_legacy.Prelude.Sort.{sort_strings-perm}
use descartes_legacy.Base.Consts
use descartes_legacy.Base.Data.{BaseConfig}
use descartes_legacy.Services.JobFactory.{
  Parts, JobFactory, sorted_brokers, cache_client, get_kafka_client,
}

module _ (parts : Parts) where
  cached :
      (brokers : String) (p : Option parts.Client × parts.E) (f f' : JobFactory parts)
      (c : parts.Client)
      → cache_client parts brokers p f ≡ (some c, f')
      → lookup brokers f'.clients ≡ some c
  cached brokers (none, e) f f' c h = cc h
  cached brokers (some d, e) f f' c h =
      let same : f' ≡ record f { clients = insert brokers c f.clients; env = e } = cc h in
      rw same (rw (lookup-insert brokers brokers c f.clients, str_eq_refl brokers) refl)

  get_kafka_client-cached :
      (config : BaseConfig) (f f' : JobFactory parts) (c : parts.Client)
      → get_kafka_client parts config f ≡ (some c, f')
      → lookup (sorted_brokers parts config) f'.clients ≡ some c
  unfolding get_kafka_client
  get_kafka_client-cached config f f' c h =
      elim (Option-cases (lookup (sorted_brokers parts config) f.clients)) [
        | inl e ↦
            cached (sorted_brokers parts config) (parts.new_kafka_client config f.env) f f' c
              (rw (e, get_kafka_client) at h)
        | inr (d, e) ↦
            let k : (some d, f) ≡ (some c, f') = rw (e, get_kafka_client) at h in
            let same_client : some d ≡ some c = ap (λ x. x.0) k in
            let same : f ≡ f' = ap (λ x. x.1) k in rw (← same, e) same_client
      ]

  -- Once there is a client for the brokers of a config, a config that lists the same brokers in any
  -- order gets that client: no other is made, and the factory stays as it is.
  pub get_kafka_client-shares :
      (config config' : BaseConfig) (f f' : JobFactory parts) (c : parts.Client)
      → get_kafka_client parts config f ≡ (some c, f')
      → Perm
          (split b';' (index Consts.kafka_brokers config))
          (split b';' (index Consts.kafka_brokers config'))
      → get_kafka_client parts config' f' ≡ (some c, f')
  unfolding get_kafka_client
  get_kafka_client-shares config config' f f' c h p =
      let same : sorted_brokers parts config ≡ sorted_brokers parts config' =
        ap (join ";") (sort_strings-perm p) in
      let found : lookup (sorted_brokers parts config') f'.clients ≡ some c =
        subst (λ b. lookup b f'.clients ≡ some c) same (get_kafka_client-cached config f f' c h) in
      rw (found, get_kafka_client) refl
