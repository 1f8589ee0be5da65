-- ===== src/Sinks/Memory/Tests.antt =====
-- Writes to the channel of sinks/memory/memory_data_writer.go.
use descartes_legacy.Prelude.{◌≡◌, refl, [], ◌∷◌}
use descartes_legacy.Base.Data.{Data}
use descartes_legacy.Sinks.Memory.{MemoryDataWriter, do_write_data}

abbrev hello : Data
hello = record { meta_info = []; raw_data = "hello" ∷ [] }

-- A full channel.
abbrev full : MemoryDataWriter
full = record {
  taken = [];
  data_chan =
      hello ∷ hello ∷ hello ∷ hello ∷ hello ∷ hello ∷ hello ∷ hello ∷ hello ∷ hello ∷ hello ∷ hello
      ∷ hello ∷ hello ∷ hello ∷ hello ∷ [];
}

full_moves_one : (do_write_data hello full).1.taken ≡ hello ∷ []
unfolding do_write_data
full_moves_one = refl
