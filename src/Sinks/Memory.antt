-- ===== src/Sinks/Memory.antt =====
-- sinks/memory/memory_data_writer.go: a channel of 16 data, between a reader and its handler.
mod Tests
use descartes_legacy.Prelude.{
  ℕ, ◌≤◌, ◌≡◌, refl, sym, ◌∙◌, ap, false, String, Bool-cases, Option, none, some, List, [], ◌∷◌,
  ◌++◌, append_assoc, append-nil, ltb, length, length-append, if◌then◌else◌, inl, inr, arith,
}
use descartes_legacy.Prelude.Result.{Error}
use descartes_legacy.Base.Data.{Data, DataWriter}

abbrev capacity : ℕ
capacity = 16

-- The data in the channel, and what was received from it before.
pub record MemoryDataWriter : Type 0 where
  pub taken : List Data
  pub data_chan : List Data

unfoldable pub new_memory_data_writer : MemoryDataWriter
new_memory_data_writer = record { taken = []; data_chan = [] }

-- A receive from Data(); from an empty channel it waits.
unfoldable pub receive : MemoryDataWriter → Option Data × MemoryDataWriter
receive w = elim w.data_chan [
  | [] ↦ (none, w)
  | d ∷ ds ↦ (some d, record { taken = w.taken ++ d ∷ []; data_chan = ds })
]

-- The send of doWriteData: on a full channel it waits for the next receive.
unfoldable pub do_write_data : Data → MemoryDataWriter → Error × MemoryDataWriter
unfolding receive
do_write_data d w =
    let w' = if ltb (length w.data_chan) capacity then w else (receive w).1 in
    (none, record w' { data_chan = w'.data_chan ++ d ∷ [] })

abbrev pub delivered : MemoryDataWriter → List Data
delivered w = w.taken ++ w.data_chan

delivered-receive : (w : MemoryDataWriter) → delivered (receive w).1 ≡ delivered w
unfolding receive
delivered-receive w = split_chan w.taken w.data_chan
  where
    split_chan :
        (taken chan : List Data)
        → delivered (receive (record { taken = taken; data_chan = chan })).1 ≡ taken ++ chan
    split_chan taken [] = refl
    split_chan taken (d ∷ ds) = append_assoc taken (d ∷ []) ds

-- A write puts its data after all earlier ones, full channel or not, and returns nil.
pub do_write_data-delivered :
    (d : Data) (w : MemoryDataWriter)
    → ((do_write_data d w).0 ≡ none) × (delivered (do_write_data d w).1 ≡ delivered w ++ d ∷ [])
unfolding do_write_data
do_write_data-delivered d w = (
  refl,
  elim (Bool-cases (ltb (length w.data_chan) capacity)) [
    | inl room ↦ rw room (sym (append_assoc w.taken w.data_chan (d ∷ [])))
    | inr full ↦ rw full (
        sym (append_assoc (receive w).1.taken (receive w).1.data_chan (d ∷ []))
        ∙ ap (λ l. l ++ d ∷ []) (delivered-receive w))
  ],
)

chan_fits :
    (l : List Data) → length l ≤ capacity → ltb (length l) capacity ≡ false → length l ≡ capacity
chan_fits l h f = ground arith

-- A write leaves at most as many data in the channel as its capacity, if there were no more before.
pub do_write_data-capacity :
    (d : Data) (w : MemoryDataWriter)
    → length w.data_chan ≤ capacity
    → length (do_write_data d w).1.data_chan ≤ capacity
unfolding do_write_data
do_write_data-capacity d w h = bounded w.taken w.data_chan h
  where
    bounded :
        (taken chan : List Data)
        → length chan ≤ capacity
        → length (do_write_data d (record { taken = taken; data_chan = chan })).1.data_chan
          ≤ capacity
    bounded taken [] h = omega arith
    bounded taken (c ∷ cs) h = elim (Bool-cases (ltb (length (c ∷ cs)) capacity)) [
      | inl room ↦ rw room (ground (arith, room, length-append (c ∷ cs) (d ∷ [])))
      | inr full ↦ rw full (ground (arith, length-append cs (d ∷ [])))
    ]

pub never_fails :
    (d : Data) (w : MemoryDataWriter) (e : String) → (do_write_data d w).0 ≡ some e → ⊥
never_fails d w e h = cc (do_write_data-delivered d w).0

abbrev pub memory_writer : DataWriter
memory_writer = record {
  Sink = MemoryDataWriter;
  write_data = do_write_data;
  delivered = delivered;
  write_nil = λ d w h. (do_write_data-delivered d w).1;
  write_error = λ d w {e} h. absurd (never_fails d w e h);
}
