-- ===== src/Sources/Snow/Collected.antt =====
-- The ids that writeCheckpoint of sources/snow/snow_data_reader.go collects.
use descartes_legacy.Prelude.{
  String, ◌≡◌, refl, sym, ap, true, List, [], ◌∷◌, ◌++◌, map, arith, subst, All, All-append,
  All-map, str_eq_refl,
}
use mathlib.Core.List.{reverse, reverse-append, reverse-cons, reverse-reverse, map-append}
use descartes_legacy.Prelude.Map.{Map}
use descartes_legacy.Prelude.Result.{done, Outcome}
use descartes_legacy.Prelude.Outcome.{◌>>=◌, bind-done}
use descartes_legacy.Sources.Snow.Records.{
  CollectionState, Json, text, Entry, fields, Removal, field, text_of, need_text, same_value,
  need_fields, is_text, is_in, max_timestamp_records, collect_id, current_state, newest_time,
}

abbrev pub sys_id : Map Json → String
sys_id r = text_of (field "sys_id" r)

-- The record has this timestamp.
abbrev pub At : String → String → Map Json → Type 0
At timefield t r = is_text t (field timefield r) ≡ true

-- One of the ids is that of the record.
abbrev pub OneOf : List String → Map Json → Type 0
OneOf ids r = is_in (sys_id r) ids ≡ true

pub All-reverse {ℓ κ} : {A : Type ℓ} (P : A → Type κ) (xs : List A) → All P xs → All P (reverse xs)
All-reverse P [] h = tt
All-reverse P (x ∷ xs) h =
    rw (reverse-cons x xs) (All-append P (reverse xs) (x ∷ []) (All-reverse P xs h.1) (h.0, tt))

pub map-reverse {ℓ κ} :
    {A : Type ℓ} {B : Type κ} (f : A → B) (xs : List A) → reverse (map f xs) ≡ map f (reverse xs)
map-reverse f [] = refl
map-reverse f (x ∷ xs) =
    rw
      (
        reverse-cons x xs,
        reverse-cons (f x) (map f xs),
        map-append f (reverse xs) (x ∷ []),
        map-reverse f xs,
      )
      refl

same_value-text : (t : String) (v : Json) → is_text t v ≡ true → same_value v (text t) ≡ done true
unfolding is_text same_value
same_value-text t (text s) h = ap done h
same_value-text t v h = cc h

pub need_text-text : (v : Json) (s : String) → need_text v ≡ done s → v ≡ text s
unfolding need_text
need_text-text (text s) t h = cc h
need_text-text v t h = cc h

pub collect_id-done :
    (r : Map Json) (earlier : Outcome (List String)) (ids : List String)
    → collect_id true r earlier ≡ done ids
    → (rest : List String) × (earlier ≡ done rest) × (ids ≡ sys_id r ∷ rest)
unfolding text_of
collect_id-done r earlier ids h =
    let (id, i, k) =
      bind-done (need_text (field "sys_id" r)) (λ x. earlier >>= λ xs. done (x ∷ xs)) ids h in
    let (rest, e, same) = bind-done earlier (λ xs. done (id ∷ xs)) ids k in
    let q : field "sys_id" r ≡ text id = need_text-text (field "sys_id" r) id i in
    (rest, e, rw q (cc same))

max_timestamp_records-OneOf :
    (timefield t : String) (xs : List (Map Json)) (ys : List Entry) (ids : List String)
    → max_timestamp_records timefield (text t) (map fields xs ++ ys) ≡ done ids
    → All (At timefield t) xs
    → All (OneOf ids) xs
unfolding max_timestamp_records need_fields
max_timestamp_records-OneOf timefield t [] ys ids h a = tt
max_timestamp_records-OneOf timefield t (x ∷ xs) ys ids h a =
    let earlier = max_timestamp_records timefield (text t) (map fields xs ++ ys) in
    let (rest, e, same) =
      collect_id-done x earlier ids (rw (same_value-text t (field timefield x) a.0) at h) in
    let later = max_timestamp_records-OneOf timefield t xs ys rest e a.1 in
    rw same (rw (str_eq_refl (sys_id x)) refl, All-map (λ r k. ground (arith, k)) xs later)

pub current_state-OneOf :
    (timefield : String) (before : List Entry) (after : List (Map Json)) (s : CollectionState)
    → current_state timefield (before ++ map fields after) ≡ done s
    → All (At timefield s.next_record_time) after
    → All (OneOf s.last_time_records) after
unfolding current_state
current_state-OneOf timefield before after s h a =
    let backwards = reverse (before ++ map fields after) in
    let newest = newest_time timefield backwards in
    let (ids, i, k) =
      bind-done (max_timestamp_records timefield newest backwards)
        (λ x. need_text newest >>= λ y.
          done (record { version = "1"; next_record_time = y; last_time_records = x }))
        s h in
    let (time, n, same) =
      bind-done (need_text newest)
        (λ y. done (record { version = "1"; next_record_time = y; last_time_records = ids })) s k in
    let q : newest ≡ text time = need_text-text newest time n in
    let st : record { version = "1"; next_record_time = time; last_time_records = ids } ≡ s =
      cc same in
    let split : backwards ≡ map fields (reverse after) ++ reverse before =
      rw (reverse-append before (map fields after), map-reverse fields after) refl in
    let all =
      max_timestamp_records-OneOf timefield time (reverse after) (reverse before) ids
        (rw (q, split) at i)
        (All-reverse (At timefield time) after
          (subst (λ x. All (At timefield x) after) (sym (ap (λ x. x.next_record_time) st)) a)) in
    subst (λ x. All (OneOf x) after) (ap (λ x. x.last_time_records) st)
      (rw (reverse-reverse after) at (All-reverse (OneOf ids) (reverse after) all))

pub done-injective : (a b : Removal) → done a ≡ done b → a ≡ b
done-injective a b h = cc h
