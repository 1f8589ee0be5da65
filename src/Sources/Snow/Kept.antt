-- ===== src/Sources/Snow/Kept.antt =====
-- What removeCollectedRecords of sources/snow/snow_data_reader.go keeps.
use descartes_legacy.Prelude.{
  String, ◌≡◌, refl, sym, ap, ◌∙◌, Bool, true, false, not, ◌&&◌, Option, none, some, List, [], ◌∷◌,
  map, inl, inr, ◌⊎◌, arith, Bool-cases, length, ◌==◌, subst, if◌then◌else◌,
}
use mathlib.Core.Bool.{true≢false}
use descartes_legacy.Prelude.Int.{pos, eqb_ℤ}
use descartes_legacy.Prelude.Map.{Map, index}
use descartes_legacy.Prelude.Decimal.{parsed_value}
use descartes_legacy.Prelude.Result.{done}
use descartes_legacy.Prelude.Outcome.{◌>>=◌, bind-done}
use descartes_legacy.Base.Data.{BaseConfig}
use descartes_legacy.Sources.Snow.Records.{
  CollectionState, Json, Entry, fields, other, Removal, field, is_text, is_in, is_fresh,
  do_remove_records, timestamp_field_key, record_count_key, moved_on, move_on, need_fields,
  last_entry, same_value, remove_from, remove_collected_records,
}
use descartes_legacy.Sources.Snow.Collected.{sys_id, At, OneOf, done-injective}

-- The record was collected before: it has the timestamp of the state and one of its ids.
abbrev pub Seen : String → CollectionState → Map Json → Type 0
Seen timefield state r = At timefield state.next_record_time r × OneOf state.last_time_records r

-- The second list has the records of the first one that were not collected before, in order.
abbrev pub Kept : String → CollectionState → List Entry → List Entry → Type 0
Kept timefield state [] kept = kept ≡ []
Kept timefield state (other ∷ entries) kept = Kept timefield state entries kept
Kept timefield state (fields r ∷ entries) kept =
    (Seen timefield state r × Kept timefield state entries kept)
    ⊎ ((Seen timefield state r → ⊥)
        × ((rest : List Entry) × (kept ≡ fields r ∷ rest) × Kept timefield state entries rest))

fresh_by :
    (timefield : String) (state : CollectionState) (r : Map Json) (a b : Bool)
    → is_text state.next_record_time (field timefield r) ≡ a
    → is_in (sys_id r) state.last_time_records ≡ b
    → is_fresh timefield state.last_time_records state.next_record_time r ≡ not (a && b)
unfolding is_fresh
fresh_by timefield state r a b h k = rw (h, k) refl

do_remove_records-Kept :
    (timefield : String) (state : CollectionState) (entries : List Entry)
    → Kept timefield state entries
        (do_remove_records timefield state.last_time_records state.next_record_time entries)
unfolding do_remove_records
do_remove_records-Kept timefield state [] = refl
do_remove_records-Kept timefield state (other ∷ entries) =
    do_remove_records-Kept timefield state entries
do_remove_records-Kept timefield state (fields r ∷ entries) =
    let rest = do_remove_records timefield state.last_time_records state.next_record_time entries in
    let later = do_remove_records-Kept timefield state entries in
    let by : (b : Bool)
        → is_fresh timefield state.last_time_records state.next_record_time r ≡ b
        → Kept timefield state (fields r ∷ entries) (if b then fields r ∷ rest else rest)
        → Kept timefield state (fields r ∷ entries) (
            if is_fresh timefield state.last_time_records state.next_record_time r
            then fields r ∷ rest
            else rest) =
      λ b e k.
        subst (λ x. Kept timefield state (fields r ∷ entries) (if x then fields r ∷ rest else rest))
          (sym e) k in
    let old = is_in (sys_id r) state.last_time_records in
    elim (Bool-cases (is_text state.next_record_time (field timefield r))) [
      | inr late ↦
          by true (fresh_by timefield state r false old late refl)
            (inr ((λ s. true≢false (sym s.0 ∙ late)), (rest, refl, later)))
      | inl at ↦ elim (Bool-cases old) [
        | inl id ↦ by false (fresh_by timefield state r true true at id) (inl ((at, id), later))
        | inr id ↦
            by true (fresh_by timefield state r true false at id)
              (inr ((λ s. true≢false (sym s.1 ∙ id)), (rest, refl, later)))
      ]
    ]

-- Without ids every record is kept.
unseen-Kept :
    (timefield : String) (state : CollectionState) (rs : List (Map Json))
    → (length state.last_time_records == 0) ≡ true
    → Kept timefield state (map fields rs) (map fields rs)
unseen-Kept timefield state [] h = refl
unseen-Kept timefield state (r ∷ rs) h = inr (
  (λ s. no_id (sys_id r) state.last_time_records h s.1),
  (map fields rs, refl, unseen-Kept timefield state rs h),
)
  where
    no_id : (s : String) (ids : List String) → (length ids == 0) ≡ true → is_in s ids ≡ true → ⊥
    no_id s [] h k = cc k
    no_id s (x ∷ ids) h k = ground (arith, h)

-- The state that removeCollectedRecords leaves: the same, or that of a second later, without ids.
pub data Moved (state : CollectionState) : Bool → CollectionState → Type 0 where
  stays : Moved state false state
  moves : (state' : CollectionState) → moved_on state ≡ some state' → Moved state true state'

-- The removal keeps what was not collected before, or nothing where the timestamp of the state has
-- to move on and is none; and it leaves that state.
pub record Keeps (timefield : String) (state : CollectionState) (entries : List Entry)
    (removal : Removal) : Type 0 where
  pub kept :
      Kept timefield state entries removal.records
      ⊎ ((removal.records ≡ []) × (moved_on state ≡ none))
  pub moved : Moved state removal.refreshed removal.state

move_on-Keeps :
    (timefield : String) (state : CollectionState) (entries kept : List Entry)
    → Kept timefield state entries kept
    → Keeps timefield state entries (move_on kept state (moved_on state))
move_on-Keeps timefield state entries kept k = go (moved_on state) refl
  where
    go :
        (o : Option CollectionState)
        → moved_on state ≡ o
        → Keeps timefield state entries (move_on kept state o)
    go none e = record { kept = inr (refl, e); moved = stays }
    go (some state') e = record { kept = inl k; moved = moves state' e }

ended :
    (timefield : String) (state : CollectionState) (entries kept : List Entry) (same : Bool)
    (removal : Removal)
    → Kept timefield state entries kept
    → done (
        if same
        then move_on kept state (moved_on state)
        else (record { records = kept; refreshed = false; state = state }))
      ≡ done removal
    → Keeps timefield state entries removal
ended timefield state entries kept true removal k h =
    subst (Keeps timefield state entries)
      (done-injective (move_on kept state (moved_on state)) removal h)
      (move_on-Keeps timefield state entries kept k)
ended timefield state entries kept false removal k h =
    subst (Keeps timefield state entries)
      (done-injective (record { records = kept; refreshed = false; state = state }) removal h)
      (record { kept = inl k; moved = stays })

remove_from-Keeps :
    (config : BaseConfig) (state : CollectionState) (first : Entry) (rest : List Entry)
    (removal : Removal)
    → remove_from config state first rest ≡ done removal
    → Keeps (index timestamp_field_key config) state (first ∷ rest) removal
unfolding remove_from
remove_from-Keeps config state first rest removal h =
    let timefield = index timestamp_field_key config in
    let records = first ∷ rest in
    let kept = do_remove_records timefield state.last_time_records state.next_record_time records in
    let k = do_remove_records-Kept timefield state records in
    elim (Bool-cases
      (eqb_ℤ (pos (length records)) (parsed_value (index record_count_key config)))) [
        | inr few ↦ ended timefield state records kept false removal k (rw few at h)
        | inl full ↦
            let end = λ (same : Bool). done (
              if same
              then move_on kept state (moved_on state)
              else (record { records = kept; refreshed = false; state = state })) in
            let (a, _, on) =
              bind-done (need_fields first)
                (λ a. need_fields (last_entry first rest) >>= λ b.
                  same_value (field timefield a) (field timefield b) >>= end)
                removal (rw full at h) in
            let (b, _, on') =
              bind-done (need_fields (last_entry first rest))
                (λ b. same_value (field timefield a) (field timefield b) >>= end) removal on in
            let (same, _, last) =
              bind-done (same_value (field timefield a) (field timefield b)) end removal on' in
            ended timefield state records kept same removal k last
      ]

pub remove_collected_records-Keeps :
    (config : BaseConfig) (state : CollectionState) (entries : List Entry) (removal : Removal)
    (rs : List (Map Json))
    → remove_collected_records config state entries ≡ done removal
    → removal.records ≡ map fields rs
    → Keeps (index timestamp_field_key config) state entries removal
unfolding remove_collected_records
remove_collected_records-Keeps config state [] removal rs h objects =
    ended (index timestamp_field_key config) state [] [] false removal refl h
remove_collected_records-Keeps config state (first ∷ rest) removal rs h objects =
    let timefield = index timestamp_field_key config in
    elim (Bool-cases (length state.last_time_records == 0)) [
      | inr some_ids ↦ remove_from-Keeps config state first rest removal (rw some_ids at h)
      | inl no_ids ↦
          let all : done (record { records = first ∷ rest; refreshed = false; state = state })
              ≡ done removal =
            rw no_ids at h in
          let q : first ∷ rest ≡ map fields rs =
            ap (λ x. x.records)
              (done-injective (record { records = first ∷ rest; refreshed = false; state = state })
                removal all)
            ∙ objects in
          ended timefield state (first ∷ rest) (first ∷ rest) false removal
            (subst (λ l. Kept timefield state l l) (sym q) (unseen-Kept timefield state rs no_ids))
            all
    ]
