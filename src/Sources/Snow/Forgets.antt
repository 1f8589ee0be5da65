-- ===== src/Sources/Snow/Forgets.antt =====
-- Ids that writeCheckpoint of sources/snow/snow_data_reader.go does not keep.
use descartes_legacy.Prelude.{
  String, ◌≡◌, refl, sym, ap, ◌∙◌, Bool, true, false, none, List, [], ◌∷◌, arith, subst, All,
  str_eq,
}
use mathlib.Core.List.{reverse}
use descartes_legacy.Prelude.Map.{Map, index}
use descartes_legacy.Prelude.Result.{done, Outcome}
use descartes_legacy.Prelude.Outcome.{◌>>=◌, bind-done}
use descartes_legacy.Base.Data.{DataWriter, Checkpointer}
use descartes_legacy.Sources.Snow.Records.{
  CollectionState, Json, Entry, fields, other, Removal, field, need_text, same_value, need_fields,
  is_in, is_fresh, timestamp_field_key, max_timestamp_records, collect_id, current_state,
  newest_time, remove_collected_records,
}
use descartes_legacy.Sources.Snow.Reader.{SnowCodec, SnowServer, SnowDataReader, index_records}
use descartes_legacy.Sources.Snow.Delivery.{Saves, index_records-Indexed}
use descartes_legacy.Sources.Snow.Collected.{sys_id, collect_id-done, All-reverse, done-injective}

-- The entry is no record with this id.
abbrev pub Lacks : String → Entry → Type 0
Lacks id (fields r) = str_eq (sys_id r) id ≡ false
Lacks id other = Unit

no-ids : (id : String) (ids : List String) → done [] ≡ done ids → is_in id ids ≡ false
no-ids id [] h = refl
no-ids id (x ∷ ids) h = cc h

collect_id-Lacks :
    (id : String) (same : Bool) (r : Map Json) (earlier : Outcome (List String)) (ids : List String)
    → collect_id same r earlier ≡ done ids
    → str_eq (sys_id r) id ≡ false
    → ((xs : List String) → earlier ≡ done xs → is_in id xs ≡ false)
    → is_in id ids ≡ false
collect_id-Lacks id false r earlier ids h n k = no-ids id ids h
collect_id-Lacks id true r earlier ids h n k =
    let (rest, e, same) = collect_id-done r earlier ids h in rw (same, n) (k rest e)

max_timestamp_records-Lacks :
    (timefield id : String) (newest : Json) (entries : List Entry) (ids : List String)
    → max_timestamp_records timefield newest entries ≡ done ids
    → All (Lacks id) entries
    → is_in id ids ≡ false
unfolding max_timestamp_records need_fields
max_timestamp_records-Lacks timefield id newest [] ids h a = no-ids id ids h
max_timestamp_records-Lacks timefield id newest (other ∷ entries) ids h a = cc h
max_timestamp_records-Lacks timefield id newest (fields r ∷ entries) ids h a =
    let earlier = max_timestamp_records timefield newest entries in
    let (same, s, k) =
      bind-done (same_value (field timefield r) newest) (λ x. collect_id x r earlier) ids h in
    collect_id-Lacks id same r earlier ids k a.0
      (λ xs e. max_timestamp_records-Lacks timefield id newest entries xs e a.1)

current_state-Lacks :
    (timefield id : String) (entries : List Entry) (s : CollectionState)
    → current_state timefield entries ≡ done s
    → All (Lacks id) entries
    → is_in id s.last_time_records ≡ false
unfolding current_state
current_state-Lacks timefield id entries s h a =
    let backwards = reverse entries in
    let newest = newest_time timefield backwards in
    let (ids, i, k) =
      bind-done (max_timestamp_records timefield newest backwards)
        (λ x. need_text newest >>= λ y.
          done (record { version = "1"; next_record_time = y; last_time_records = x }))
        s h in
    let (time, n, same) =
      bind-done (need_text newest)
        (λ y. done (record { version = "1"; next_record_time = y; last_time_records = ids })) s k in
    let st : record { version = "1"; next_record_time = time; last_time_records = ids } ≡ s =
      cc same in
    subst (λ x. is_in id x ≡ false) (ap (λ x. x.last_time_records) st)
      (max_timestamp_records-Lacks timefield id newest backwards ids i
        (All-reverse (Lacks id) entries a))

is_fresh-Lacks :
    (timefield t : String) (ids : List String) (r : Map Json)
    → is_in (sys_id r) ids ≡ false
    → is_fresh timefield ids t r ≡ true
unfolding is_fresh
is_fresh-Lacks timefield t ids r h = ground (arith, h)

module _ (codec : SnowCodec) (writer : DataWriter) (checkpoint : Checkpointer)
    (server : SnowServer) where
  Saves-Lacks :
      (id : String) (entry : Entry) (entries : List Entry) (refreshed : Bool)
      (r r' : SnowDataReader codec writer checkpoint server)
      → refreshed ≡ false
      → All (Lacks id) (entry ∷ entries)
      → Saves codec writer checkpoint server (entry ∷ entries) refreshed r r'
      → is_in id r'.state.last_time_records ≡ false
  unfolding Saves
  Saves-Lacks id entry entries refreshed r r' f a s =
      let next : r'.state ≡ s.new_state = rw f at s.next in
      rw next (
        current_state-Lacks (index timestamp_field_key r.config) id (entry ∷ entries) s.new_state
          s.collected a)

  -- After IndexData has reported no error for an answer of which it kept some records, without
  -- moving the timestamp on, any record whose id none of the kept ones has counts as new in the next
  -- answer: also one at the same timestamp that was delivered before, of which the answer held a
  -- repetition that was removed.
  pub index_records-forgets :
      (records entries : List Entry) (entry : Entry) (removal : Removal) (seen : Map Json)
      (r r' : SnowDataReader codec writer checkpoint server)
      → index_records codec writer checkpoint server records r ≡ done (none, r')
      → remove_collected_records r.config r.state records ≡ done removal
      → removal.records ≡ entry ∷ entries
      → removal.refreshed ≡ false
      → All (Lacks (sys_id seen)) (entry ∷ entries)
      → is_fresh
          (index timestamp_field_key r'.config)
          r'.state.last_time_records
          r'.state.next_record_time
          seen
        ≡ true
  index_records-forgets records entries entry removal seen r r' h k nonempty fresh lacks =
      let i = index_records-Indexed codec writer checkpoint server records r r' h in
      let whole : i.removal ≡ removal = done-injective i.removal removal (sym i.kept ∙ k) in
      let saves : Saves codec writer checkpoint server removal.records removal.refreshed
          (record r { state = removal.state; sink = r'.sink }) r' =
        subst
          (λ x.
            Saves codec writer checkpoint server x.records x.refreshed
              (record r { state = x.state; sink = r'.sink }) r')
          whole i.saves in
      is_fresh-Lacks (index timestamp_field_key r'.config) r'.state.next_record_time
        r'.state.last_time_records seen
        (Saves-Lacks (sys_id seen) entry entries removal.refreshed
          (record r { state = removal.state; sink = r'.sink }) r' fresh lacks
          (rw nonempty at saves))
