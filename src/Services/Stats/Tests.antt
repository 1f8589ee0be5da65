-- ===== src/Services/Stats/Tests.antt =====
-- The data of a topic with two partitions, and a service that is started twice.
use descartes_legacy.Prelude.{◌≡◌, refl, [], ◌∷◌}
use descartes_legacy.Prelude.Int.{pos}
use descartes_legacy.Prelude.Decimal.{format_int}
use descartes_legacy.Base.Data.{new_data}
use descartes_legacy.Services.Stats.{topic_data}

two_partitions :
    topic_data [] "t" (pos 0 ∷ pos 11 ∷ [])
    ≡ new_data [] ("topic=t,partition=0" ∷ []) ∷ new_data [] ("topic=t,partition=11" ∷ []) ∷ []
unfolding topic_data format_int
two_partitions = refl
