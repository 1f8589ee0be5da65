-- ===== src/Services/Hosts/Tests.antt =====
-- Three children of the heartbeat root, of which one has no app.
use descartes_legacy.Prelude.{◌≡◌, refl, String, true, List, [], ◌∷◌}
use descartes_legacy.Prelude.Int.{pos}
use descartes_legacy.Prelude.Map.{index, lookup, insert}
use descartes_legacy.Prelude.Text.{split}
use descartes_legacy.Prelude.Result.{ok}
use descartes_legacy.Base.Consts
use descartes_legacy.Base.Data.{BaseConfig}
use descartes_legacy.Services.Hosts.{
  node_name, refresh_registered_collectors, add_collectors, add_parts, put, apps_of,
  available_hosts, is_live, pick, get_available_gathering_host,
}
use descartes_legacy.Services.Hosts.Live.{
  knows, is_listed, refresh-knows, get_available_gathering_host_lem,
}

abbrev children : List String
children = "a!snow" ∷ "b" ∷ "b!snow" ∷ []

abbrev task : BaseConfig
task = (Consts.app, "snow") ∷ []

second_host :
    get_available_gathering_host [] (pos 0) 3 task (refresh_registered_collectors (ok children))
    ≡ "b"
unfolding get_available_gathering_host available_hosts is_live pick refresh_registered_collectors
    add_collectors add_parts put apps_of split index lookup insert
second_host = refl

refresh-knows_example :
    knows "a" "snow" (refresh_registered_collectors (ok children))
    ≡ is_listed (node_name "a" "snow") children
refresh-knows_example =
    refresh-knows "a" "snow" children (refl, tt) (refl, (refl, (refl, (refl, tt))))

get_available_gathering_host_lem_example :
    is_listed
      (node_name
        (get_available_gathering_host []
          (pos 0)
          3
          task
          (refresh_registered_collectors (ok children)))
        (index Consts.app task))
      children
    ≡ true
get_available_gathering_host_lem_example =
    get_available_gathering_host_lem [] task (pos 0) 3 children (rw second_host refl)
