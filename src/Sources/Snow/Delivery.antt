-- ===== src/Sources/Snow/Delivery.antt =====
-- What IndexData of sources/snow/snow_data_reader.go delivers and saves.
use descartes_legacy.Prelude.{
  String, ◌≡◌, refl, sym, ap, Bool, true, false, none, some, List, [], ◌∷◌, inl, inr, subst,
  if◌then◌else◌,
}
use descartes_legacy.Prelude.Map.{index}
use descartes_legacy.Prelude.Result.{ok, done, Error, Outcome, Result-cases}
use descartes_legacy.Prelude.Outcome.{◌>>=◌, bind-done}
use descartes_legacy.Base.Data.{Bytes, DataWriter, Checkpointer}
use descartes_legacy.Sources.Snow.Writes.{Delivers, write_records-Delivers}
use descartes_legacy.Sources.Snow.Kept.{Keeps, remove_collected_records-Keeps}
use descartes_legacy.Sources.Snow.Newest.{Newest, current_state-Newest}
use descartes_legacy.Sources.Snow.Records.{
  CollectionState, Entry, Removal, timestamp_field_key, current_state, remove_collected_records,
}
use descartes_legacy.Sources.Snow.Reader.{
  SnowCodec, SnowServer, SnowDataReader, write_records, save_state, saved, write_checkpoint,
  meta_info, after_writes, index_records,
}

module _ (codec : SnowCodec) (writer : DataWriter) (checkpoint : Checkpointer)
    (server : SnowServer) where
  failed :
      (m : String) (r r' : SnowDataReader codec writer checkpoint server)
      → ◌≡◌ {A = Outcome (Error × SnowDataReader codec writer checkpoint server)}
          (done (some m, r))
          (done (none, r'))
      → ⊥
  failed m r r' h = cc h

  done-pair :
      (r' : SnowDataReader codec writer checkpoint server)
      (p : Error × SnowDataReader codec writer checkpoint server)
      → done p ≡ done (none, r')
      → p ≡ (none, r')
  done-pair r' p h = cc h

  -- What writeCheckpoint leaves when it reports no error for records that are not empty.
  pub record Saved (entries : List Entry) (refreshed : Bool)
      (r r' : SnowDataReader codec writer checkpoint server) : Type 0 where
    pub new_state : CollectionState
    pub bytes : Bytes
    pub collected : current_state (index timestamp_field_key r.config) entries ≡ done new_state
    pub newest : Newest (index timestamp_field_key r.config) entries new_state
    pub encoded : codec.marshal_state new_state ≡ ok bytes
    pub stored : checkpoint.get_checkpoint r.config r'.store ≡ ok (some bytes)
    pub next : r'.state ≡ (if refreshed then r.state else new_state)
    pub same_config : r'.config ≡ r.config
    pub same_sink : r'.sink ≡ r.sink

  unfoldable pub Saves :
      List Entry → Bool → (r r' : SnowDataReader codec writer checkpoint server) → Type 0
  Saves [] refreshed r r' = r' ≡ r
  Saves (entry ∷ entries) refreshed r r' = Saved (entry ∷ entries) refreshed r r'

  saved-done :
      (refreshed : Bool) (state : CollectionState)
      (r r' : SnowDataReader codec writer checkpoint server) (p : Error × checkpoint.Store)
      → saved codec writer checkpoint server refreshed state r p ≡ (none, r')
      → (p.0 ≡ none) × (r' ≡ record r { store = p.1; state = if refreshed then r.state else state })
  saved-done refreshed state r r' (some m, s) h = cc h
  saved-done true state r r' (none, s) h = (refl, sym (ap (λ x. x.1) h))
  saved-done false state r r' (none, s) h = (refl, sym (ap (λ x. x.1) h))

  write_checkpoint-Saves :
      (entries : List Entry) (refreshed : Bool)
      (r r' : SnowDataReader codec writer checkpoint server)
      → write_checkpoint codec writer checkpoint server entries refreshed r ≡ done (none, r')
      → Saves entries refreshed r r'
  unfolding write_checkpoint Saves
  write_checkpoint-Saves [] refreshed r r' h = cc h
  write_checkpoint-Saves (entry ∷ entries) refreshed r r' h =
      let (state, c, k) =
        bind-done (current_state (index timestamp_field_key r.config) (entry ∷ entries))
          (λ s.
            done (save_state codec writer checkpoint server refreshed s r (codec.marshal_state s)))
          (none, r') h in
      elim (Result-cases (codec.marshal_state state)) [
        | inr (m, e) ↦ absurd (failed m r r' (rw e at k))
        | inl (bytes, e) ↦
            let (w, q) =
              saved-done refreshed state r r' (checkpoint.write_checkpoint r.config bytes r.store) (
                done-pair r'
                  (saved codec writer checkpoint server refreshed state r
                    (checkpoint.write_checkpoint r.config bytes r.store))
                  (rw e at k)) in
            record {
              new_state = state;
              bytes = bytes;
              collected = c;
              newest =
                  current_state-Newest (index timestamp_field_key r.config) (entry ∷ entries) state
                    c;
              encoded = e;
              stored = rw q (checkpoint.read_back r.config bytes r.store w);
              next = rw q refl;
              same_config = rw q refl;
              same_sink = rw q refl;
            }
      ]

  -- What IndexData leaves when it reports no error for an answer with these records.
  pub record Indexed (records : List Entry) (r r' : SnowDataReader codec writer checkpoint server)
      : Type 0 where
    pub removal : Removal
    pub kept : remove_collected_records r.config r.state records ≡ done removal
    pub keeps : Keeps (index timestamp_field_key r.config) r.state records removal
    pub delivers :
        Delivers codec writer checkpoint server
          (meta_info codec writer checkpoint server r.config)
          ("" ∷ [])
          removal.records
          r.sink
          r'.sink
    pub saves :
        Saves removal.records removal.refreshed
          (record r { state = removal.state; sink = r'.sink })
          r'

  Saves-same_sink :
      (entries : List Entry) (refreshed : Bool)
      (r r' : SnowDataReader codec writer checkpoint server)
      → Saves entries refreshed r r'
      → r'.sink ≡ r.sink
  unfolding Saves
  Saves-same_sink [] refreshed r r' h = ap (λ x. x.sink) h
  Saves-same_sink (entry ∷ entries) refreshed r r' h = h.same_sink

  after_writes-Indexed :
      (records : List Entry) (r r' : SnowDataReader codec writer checkpoint server)
      (removal : Removal) (written : Error × writer.Sink)
      → remove_collected_records r.config r.state records ≡ done removal
      → write_records codec writer checkpoint server
          (meta_info codec writer checkpoint server r.config)
          ("" ∷ [])
          removal.records
          r.sink
        ≡ done written
      → after_writes codec writer checkpoint server removal
          (record r { state = removal.state })
          written
        ≡ done (none, r')
      → Indexed records r r'
  unfolding Delivers
  after_writes-Indexed records r r' removal (some m, w) k d h = cc h
  after_writes-Indexed records r r' removal (none, w) k d h =
      let s =
        write_checkpoint-Saves removal.records removal.refreshed
          (record r { state = removal.state; sink = w }) r' h in
      let delivers =
        write_records-Delivers codec writer checkpoint server
          (meta_info codec writer checkpoint server r.config) ("" ∷ []) removal.records r.sink w
          d in
      let same : r'.sink ≡ w =
        Saves-same_sink removal.records removal.refreshed
          (record r { state = removal.state; sink = w }) r' s in
      record {
        removal = removal;
        kept = k;
        keeps =
            remove_collected_records-Keeps r.config r.state records removal delivers.0 k delivers.1;
        delivers = rw same delivers;
        saves =
            subst
              (λ x.
                Saves removal.records removal.refreshed
                  (record r { state = removal.state; sink = x }) r')
              (sym same) s;
      }

  pub index_records-Indexed :
      (records : List Entry) (r r' : SnowDataReader codec writer checkpoint server)
      → index_records codec writer checkpoint server records r ≡ done (none, r')
      → Indexed records r r'
  unfolding index_records
  index_records-Indexed records r r' h =
      let (removal, k, on) =
        bind-done (remove_collected_records r.config r.state records)
          (λ x.
            write_records codec writer checkpoint server
              (meta_info codec writer checkpoint server r.config) ("" ∷ []) x.records r.sink
            >>= λ y. after_writes codec writer checkpoint server x (record r { state = x.state }) y)
          (none, r') h in
      let (written, d, end) =
        bind-done
          (write_records codec writer checkpoint server
            (meta_info codec writer checkpoint server r.config) ("" ∷ []) removal.records r.sink)
          (λ y.
            after_writes codec writer checkpoint server removal (record r { state = removal.state })
              y)
          (none, r') on in
      after_writes-Indexed records r r' removal written k d end
