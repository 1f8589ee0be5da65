-- ===== src/Services/Topic/Tests.antt =====
-- Two servers that get one topic.
use descartes_legacy.Prelude.{◌≡◌, refl}
use descartes_legacy.Services.Topic.{generate_topic, generate_topic-collides, encode_url}

last_byte_is_lost : encode_url "https://snow1" ≡ "aHR0cHM6Ly9zbm93"
unfolding encode_url
last_byte_is_lost = refl

generate_topic-collides_example :
    generate_topic "snow" "https://snow1" "admin" ≡ generate_topic "snow" "https://snow2" "admin"
generate_topic-collides_example =
    generate_topic-collides "snow" "admin" "https://snow1" "https://snow2" refl
