-- ===== src/Sources/Snow/Newest.antt =====
-- The state that writeCheckpoint of sources/snow/snow_data_reader.go collects.
use descartes_legacy.Prelude.{
  String, ◌≡◌, refl, sym, ap, ◌∙◌, Bool, true, false, List, [], ◌∷◌, ◌++◌, map, subst, All,
  str_eq_refl,
}
use mathlib.Core.Bool.{true≢false}
use mathlib.Core.List.{reverse}
use descartes_legacy.Prelude.Map.{Map}
use descartes_legacy.Prelude.Result.{done}
use descartes_legacy.Prelude.Outcome.{◌>>=◌, bind-done}
use descartes_legacy.Sources.Snow.Records.{
  CollectionState, Json, text, Entry, fields, other, field, need_text, same_value, need_fields,
  is_text, max_timestamp_records, collect_id, current_state, newest_time,
}
use descartes_legacy.Sources.Snow.Collected.{sys_id, At, collect_id-done, need_text-text}

-- The list is empty, or starts with a record of another timestamp.
abbrev pub Differs : String → String → List Entry → Type 0
Differs timefield t [] = Unit
Differs timefield t (fields r ∷ entries) = is_text t (field timefield r) ≡ false
Differs timefield t (other ∷ entries) = ⊥

-- Read from the last one, the entries start with all the records that have the timestamp of the
-- state, one at least, and the state holds their ids.
pub record Newest (timefield : String) (entries : List Entry) (state : CollectionState)
    : Type 0 where
  pub newest : Map Json
  pub older : List (Map Json)
  pub rest : List Entry
  pub split : reverse entries ≡ map fields (newest ∷ older) ++ rest
  pub same_time : All (At timefield state.next_record_time) (newest ∷ older)
  pub ids : state.last_time_records ≡ map sys_id (newest ∷ older)
  pub differs : Differs timefield state.next_record_time rest

same_value-is_text :
    (t : String) (v : Json) (b : Bool) → same_value v (text t) ≡ done b → is_text t v ≡ b
unfolding same_value is_text
same_value-is_text t (text s) b h = cc h
same_value-is_text t v b h = cc h

-- The records at the start that have the timestamp, and their ids.
abbrev Run : String → String → List Entry → List String → Type 0
Run timefield t entries ids =
    (run : List (Map Json)) × (rest : List Entry) × (entries ≡ map fields run ++ rest)
    × All (At timefield t) run
    × (ids ≡ map sys_id run)
    × Differs timefield t rest

no_ids : (ids : List String) → done [] ≡ done ids → ids ≡ []
no_ids ids h = cc h

collected-Run :
    (timefield t : String) (same : Bool) (r : Map Json) (entries : List Entry) (ids : List String)
    → is_text t (field timefield r) ≡ same
    → collect_id same r (max_timestamp_records timefield (text t) entries) ≡ done ids
    → ((xs : List String)
        → max_timestamp_records timefield (text t) entries ≡ done xs
        → Run timefield t entries xs)
    → Run timefield t (fields r ∷ entries) ids
collected-Run timefield t false r entries ids e h k =
    ([], fields r ∷ entries, refl, tt, no_ids ids h, e)
collected-Run timefield t true r entries ids e h k =
    let (xs, earlier, q) =
      collect_id-done r (max_timestamp_records timefield (text t) entries) ids h in
    let (run, rest, split, at, same, d) = k xs earlier in
    (
      r ∷ run,
      rest,
      ap (λ (l : List Entry). fields r ∷ l) split,
      (e, at),
      q ∙ ap (λ l. sys_id r ∷ l) same,
      d,
    )

max_timestamp_records-Run :
    (timefield t : String) (entries : List Entry) (ids : List String)
    → max_timestamp_records timefield (text t) entries ≡ done ids
    → Run timefield t entries ids
unfolding max_timestamp_records need_fields
max_timestamp_records-Run timefield t [] ids h = ([], [], refl, tt, no_ids ids h, tt)
max_timestamp_records-Run timefield t (other ∷ entries) ids h = cc h
max_timestamp_records-Run timefield t (fields r ∷ entries) ids h =
    let (same, s, k) =
      bind-done (same_value (field timefield r) (text t))
        (λ x. collect_id x r (max_timestamp_records timefield (text t) entries)) ids h in
    collected-Run timefield t same r entries ids (same_value-is_text t (field timefield r) same s) k
      (max_timestamp_records-Run timefield t entries)

-- The newest record is one of them.
nonempty :
    (timefield t : String) (entries : List Entry) (run : List (Map Json)) (rest : List Entry)
    → newest_time timefield entries ≡ text t
    → entries ≡ map fields run ++ rest
    → Differs timefield t rest
    → (newest : Map Json) × (older : List (Map Json)) × (run ≡ newest ∷ older)
unfolding is_text
nonempty timefield t entries (r ∷ run) rest n e d = (r, run, refl)
nonempty timefield t entries [] [] n e d =
    absurd (null≢text t (sym (ap (newest_time timefield) e) ∙ n))
  where
    null≢text : (t : String) → Json.null ≡ text t → ⊥
    null≢text t h = cc h
nonempty timefield t entries [] (other ∷ rest) n e d = absurd d
nonempty timefield t entries [] (fields r ∷ rest) n e d =
    let q : field timefield r ≡ text t = sym (ap (newest_time timefield) e) ∙ n in
    absurd (true≢false (sym (str_eq_refl t) ∙ sym (ap (is_text t) q) ∙ d))

pub current_state-Newest :
    (timefield : String) (entries : List Entry) (s : CollectionState)
    → current_state timefield entries ≡ done s
    → Newest timefield entries s
unfolding current_state
current_state-Newest timefield entries s h =
    let backwards = reverse entries in
    let newest = newest_time timefield backwards in
    let (ids, i, k) =
      bind-done (max_timestamp_records timefield newest backwards)
        (λ x. need_text newest >>= λ y.
          done (record { version = "1"; next_record_time = y; last_time_records = x }))
        s h in
    let (time, n, same) =
      bind-done (need_text newest)
        (λ y. done (record { version = "1"; next_record_time = y; last_time_records = ids })) s k in
    let q : newest ≡ text time = need_text-text newest time n in
    let st : record { version = "1"; next_record_time = time; last_time_records = ids } ≡ s =
      cc same in
    let (run, rest, split, at, names, d) =
      max_timestamp_records-Run timefield time backwards ids
        (subst (λ v. max_timestamp_records timefield v backwards ≡ done ids) q i) in
    let (first, older, e) = nonempty timefield time backwards run rest q split d in
    subst (Newest timefield entries) st (record {
      newest = first;
      older = older;
      rest = rest;
      split = split ∙ ap (λ l. map fields l ++ rest) e;
      same_time = subst (All (At timefield time)) e at;
      ids = names ∙ ap (map sys_id) e;
      differs = d;
    })
