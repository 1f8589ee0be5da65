-- ===== src/Sources/Snow/Repeats.antt =====
-- Records that sources/snow/snow_data_reader.go has seen in an earlier answer.
use descartes_legacy.Prelude.{
  suc, String, ◌≡◌, refl, sym, ap, ◌∙◌, Bool, true, false, none, List, [], ◌∷◌, ◌++◌, map, inl, inr,
  Bool-cases, arith, subst, length, ◌==◌, All, All-map, str_eq, str_eq→eq,
}
use descartes_legacy.Prelude.Map.{Map, index}
use descartes_legacy.Prelude.Int.{pos, eqb_ℤ}
use descartes_legacy.Prelude.Decimal.{parsed_value}
use descartes_legacy.Prelude.Result.{done}
use descartes_legacy.Base.Data.{BaseConfig, DataWriter, Checkpointer}
use descartes_legacy.Sources.Snow.Records.{
  CollectionState, Json, Entry, fields, Removal, is_in, is_fresh, do_remove_records,
  timestamp_field_key, record_count_key, remove_from, remove_collected_records,
}
use descartes_legacy.Sources.Snow.Reader.{
  SnowCodec, SnowServer, SnowDataReader, index_records, write_records, write_checkpoint,
}
use descartes_legacy.Sources.Snow.Kept.{Seen}
use descartes_legacy.Sources.Snow.Delivery.{Saves, index_records-Indexed}
use descartes_legacy.Sources.Snow.Collected.{sys_id, At, OneOf, current_state-OneOf, done-injective}

do_remove_records-Seen :
    (timefield : String) (state : CollectionState) (again : List (Map Json))
    → All (Seen timefield state) again
    → do_remove_records timefield state.last_time_records state.next_record_time (map fields again)
      ≡ []
unfolding do_remove_records is_fresh
do_remove_records-Seen timefield state [] a = refl
do_remove_records-Seen timefield state (r ∷ again) a =
    rw (a.0.0, a.0.1) (do_remove_records-Seen timefield state again a.1)

length-map {ℓ κ} :
    {A : Type ℓ} {B : Type κ} (f : A → B) (xs : List A) → length (map f xs) ≡ length xs
length-map f [] = refl
length-map f (x ∷ xs) = ap (λ n. suc n) (length-map f xs)

is_in-length : (s : String) (ids : List String) → is_in s ids ≡ true → (length ids == 0) ≡ false
is_in-length s [] h = cc h
is_in-length s (x ∷ ids) h = ground arith

remove_collected_records-Seen :
    (config : BaseConfig) (state : CollectionState) (again : List (Map Json))
    → All (Seen (index timestamp_field_key config) state) again
    → eqb_ℤ (pos (length again)) (parsed_value (index record_count_key config)) ≡ false
    → remove_collected_records config state (map fields again)
      ≡ done (record { records = []; refreshed = false; state = state })
unfolding remove_collected_records remove_from
remove_collected_records-Seen config state [] a few = refl
remove_collected_records-Seen config state (r ∷ again) a few =
    rw
      (
        is_in-length (sys_id r) state.last_time_records a.0.1,
        length-map fields again,
        few,
        do_remove_records-Seen (index timestamp_field_key config) state (r ∷ again) a,
      )
      refl

append-cons≢nil : (before : List Entry) (x : Entry) (xs : List Entry) → [] ≡ before ++ x ∷ xs → ⊥
append-cons≢nil [] x xs h = cc h
append-cons≢nil (y ∷ before) x xs h = cc h

-- An id of the records is one of ids that hold those of all the records.
is_in_trans :
    (s : String) (ids : List String) (records : List (Map Json))
    → All (OneOf ids) records
    → is_in s (map sys_id records) ≡ true
    → is_in s ids ≡ true
is_in_trans s ids [] a h = cc h
is_in_trans s ids (x ∷ records) a h = elim (Bool-cases (str_eq (sys_id x) s)) [
  | inl e ↦ subst (λ y. is_in y ids ≡ true) (str_eq→eq (sys_id x) s e) a.0
  | inr e ↦ is_in_trans s ids records a.1 (rw e at h)
]

module _ (codec : SnowCodec) (writer : DataWriter) (checkpoint : Checkpointer)
    (server : SnowServer) where
  index_records-Seen :
      (again : List (Map Json)) (r : SnowDataReader codec writer checkpoint server)
      → All (Seen (index timestamp_field_key r.config) r.state) again
      → eqb_ℤ (pos (length again)) (parsed_value (index record_count_key r.config)) ≡ false
      → index_records codec writer checkpoint server (map fields again) r ≡ done (none, r)
  unfolding index_records write_records write_checkpoint
  index_records-Seen again r a few =
      rw (remove_collected_records-Seen r.config r.state again a few) refl

  Saves-OneOf :
      (entries before : List Entry) (after : List (Map Json)) (refreshed : Bool)
      (r r' : SnowDataReader codec writer checkpoint server)
      → entries ≡ before ++ map fields after
      → refreshed ≡ false
      → All (At (index timestamp_field_key r.config) r'.state.next_record_time) after
      → Saves codec writer checkpoint server entries refreshed r r'
      → (r'.config ≡ r.config) × All (OneOf r'.state.last_time_records) after
  unfolding Saves
  Saves-OneOf [] before [] refreshed r r' e f a s = (ap (λ x. x.config) s, tt)
  Saves-OneOf [] before (x ∷ after) refreshed r r' e f a s =
      absurd (append-cons≢nil before (fields x) (map fields after) e)
  Saves-OneOf (entry ∷ entries) before after refreshed r r' e f a s =
      let next : r'.state ≡ s.new_state = rw f at s.next in
      (
        s.same_config,
        rw next (
            current_state-OneOf (index timestamp_field_key r.config) before after s.new_state
              (rw e at s.collected) (rw next at a)),
      )

  -- Once IndexData has reported no error for an answer of which it kept `after` last, all at the
  -- timestamp that it goes on from, an answer of records at that timestamp that each have the id of
  -- one of `after`, fewer or more than the record count, delivers nothing, changes nothing and
  -- reports no error.
  pub index_records-again :
      (records before : List Entry) (after again : List (Map Json)) (removal : Removal)
      (r r' : SnowDataReader codec writer checkpoint server)
      → index_records codec writer checkpoint server records r ≡ done (none, r')
      → remove_collected_records r.config r.state records ≡ done removal
      → removal.records ≡ before ++ map fields after
      → removal.refreshed ≡ false
      → All (At (index timestamp_field_key r.config) r'.state.next_record_time) after
      → All
          (λ x.
            At (index timestamp_field_key r.config) r'.state.next_record_time x
            × OneOf (map sys_id after) x)
          again
      → eqb_ℤ (pos (length again)) (parsed_value (index record_count_key r.config)) ≡ false
      → index_records codec writer checkpoint server (map fields again) r' ≡ done (none, r')
  index_records-again records before after again removal r r' h k split fresh at same few =
      let i = index_records-Indexed codec writer checkpoint server records r r' h in
      let whole : i.removal ≡ removal = done-injective i.removal removal (sym i.kept ∙ k) in
      let r₀ = record r { state = removal.state; sink = r'.sink } in
      let saves : Saves codec writer checkpoint server removal.records removal.refreshed r₀ r' =
        subst
          (λ x.
            Saves codec writer checkpoint server x.records x.refreshed
              (record r { state = x.state; sink = r'.sink }) r')
          whole i.saves in
      let (config, ids) =
        Saves-OneOf removal.records before after removal.refreshed r₀ r' split fresh at saves in
      index_records-Seen again r'
        (rw config (
          All-map (λ x q. (q.0, is_in_trans (sys_id x) r'.state.last_time_records after ids q.1))
            again same))
        (rw config few)
