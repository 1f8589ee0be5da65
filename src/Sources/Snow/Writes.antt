-- ===== src/Sources/Snow/Writes.antt =====
-- The loop of IndexData in sources/snow/snow_data_reader.go that writes the records of an answer.
use descartes_legacy.Prelude.{
  String, ◌≡◌, refl, ap, ◌∙◌, none, some, List, [], ◌∷◌, ◌++◌, append-nil, append_assoc, map,
}
use descartes_legacy.Prelude.Map.{Map}
use descartes_legacy.Prelude.Result.{done, Error, Outcome}
use descartes_legacy.Base.Data.{Bytes, new_data, DataWriter, Checkpointer}
use descartes_legacy.Sources.Snow.Records.{
  Json, Entry, fields, other, need_fields, record_line, all_data,
}
use descartes_legacy.Sources.Snow.Reader.{SnowCodec, SnowServer, write_records, continue}

module _ (codec : SnowCodec) (writer : DataWriter) (checkpoint : Checkpointer)
    (server : SnowServer) where
  -- The entries are objects, and the data of all of them are delivered, in order.
  unfoldable pub Delivers :
      Map String → List Bytes → List Entry → writer.Sink → writer.Sink → Type 0
  Delivers meta buffer entries w w' =
      (rs : List (Map Json)) × (entries ≡ map fields rs)
      × (writer.delivered w' ≡ writer.delivered w ++ all_data codec.show meta buffer rs)

  continue-done :
      (rest : writer.Sink → Outcome (Error × writer.Sink)) (p : Error × writer.Sink)
      (w : writer.Sink)
      → continue codec writer checkpoint server rest p ≡ done (none, w)
      → (p.0 ≡ none) × (rest p.1 ≡ done (none, w))
  continue-done rest (none, w₁) w h = (refl, h)
  continue-done rest (some m, w₁) w h = cc h

  pub write_records-Delivers :
      (meta : Map String) (buffer : List Bytes) (entries : List Entry) (w w' : writer.Sink)
      → write_records codec writer checkpoint server meta buffer entries w ≡ done (none, w')
      → Delivers meta buffer entries w w'
  unfolding write_records all_data Delivers need_fields
  write_records-Delivers meta buffer [] w w' h = ([], refl, cc (append-nil (writer.delivered w), h))
  write_records-Delivers meta buffer (other ∷ entries) w w' h = cc h
  write_records-Delivers meta buffer (fields r ∷ entries) w w' h =
      let d = new_data meta (buffer ++ record_line codec.show r ∷ []) in
      let p = writer.write_data d w in
      let (sent, on) =
        continue-done (write_records codec writer checkpoint server meta [] entries) p w' h in
      let (rs, e, all) = write_records-Delivers meta [] entries p.1 w' on in
      (
        r ∷ rs,
        ap (λ (x : List Entry). fields r ∷ x) e,
        all
            ∙ rw
                (
                  writer.write_nil d w sent,
                  append_assoc (writer.delivered w) (d ∷ []) (all_data codec.show meta [] rs),
                )
                refl,
      )
