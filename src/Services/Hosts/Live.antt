-- ===== src/Services/Hosts/Live.antt =====
-- Who counts as live after a refresh of the collectors from ZooKeeper.
use Prim.Native.String.append as append_lem
use native.Mathlib.Nat.{mod-lt}
use descartes_legacy.Prelude.{
  ℕ, zero, suc, ◌%◌, ◌<◌, ◌≡◌, refl, sym, ◌∙◌, ap, subst, String, Bool, true, false, ◌||◌, Option,
  none, some, List, [], ◌∷◌, if◌then◌else◌, str_eq, str_eq_refl, str_eq→eq, length, get_elem?,
  arith, All, All-map, Bool-cases, Option-cases, inl, inr,
}
use descartes_legacy.Prelude.Int.{ℤ}
use descartes_legacy.Prelude.Map.{Map, lookup, has, insert, index, lookup-insert}
use descartes_legacy.Prelude.Text.{split, join, join-split, split-append, split_one, Lacks}
use descartes_legacy.Prelude.Result.{ok}
use descartes_legacy.Base.Consts
use descartes_legacy.Base.Data.{BaseConfig}
use descartes_legacy.Services.Hosts.{
  Collectors, or_nil, apps_of, node_name, put, add_parts, add_collectors,
  refresh_registered_collectors, is_live, available_hosts, pick, get_available_gathering_host,
}

-- A name is in a list of nodes.
abbrev pub is_listed : String → List String → Bool
is_listed node [] = false
is_listed node (n ∷ nodes) = str_eq n node || is_listed node nodes

abbrev pub knows : String → String → Collectors → Bool
knows host app live = has app (apps_of host live)

has-insert :
    (k j : String) (v : Option BaseConfig) (m : Map (Option BaseConfig))
    → has j (insert k v m) ≡ str_eq k j || has j m
unfolding has
has-insert k j v m = rw (lookup-insert k j v m, has) (ground arith)

knows-put :
    (host app h a : String) (b : Option BaseConfig) (live : Collectors)
    → knows h a (put host app b live)
      ≡ (if str_eq host h then str_eq app a || knows h a live else knows h a live)
unfolding put apps_of
knows-put host app h a b live =
    rw (lookup-insert host h (insert app b (or_nil (lookup host live))) live)
      (elim (Bool-cases (str_eq host h)) [
        | inl c ↦ rw c (
            has-insert app a b (or_nil (lookup host live))
            ∙ ap (λ x. str_eq app a || has a (or_nil (lookup x live))) (str_eq→eq host h c))
        | inr c ↦ rw c refl
      ])

-- The collectors of a map all have a node in the list.
abbrev pub HasNodes : List String → String × Map (Option BaseConfig) → Type 0
HasNodes nodes (host, apps) =
    (a : String) → has a apps ≡ true → is_listed (node_name host a) nodes ≡ true

All-insert :
    (P : String × Map (Option BaseConfig) → Type 0) (k : String) (v : Map (Option BaseConfig))
    (m : Collectors)
    → P (k, v)
    → All P m
    → All P (insert k v m)
unfolding insert
All-insert P k v [] p h = (p, tt)
All-insert P k v ((j, w) ∷ m) p h = elim (Bool-cases (str_eq j k)) [
  | inl c ↦ rw c (p, h.1)
  | inr c ↦ rw c (h.0, All-insert P k v m p h.1)
]

HasNodes-apps_of :
    (nodes : List String) (host : String) (live : Collectors)
    → All (HasNodes nodes) live
    → HasNodes nodes (host, apps_of host live)
unfolding apps_of lookup has
HasNodes-apps_of nodes host [] h = λ a k. cc k
HasNodes-apps_of nodes host ((j, w) ∷ m) h = elim (Bool-cases (str_eq j host)) [
  | inl c ↦ rw c (subst (λ x. HasNodes nodes (x, w)) (str_eq→eq j host c) h.0)
  | inr c ↦ rw c (HasNodes-apps_of nodes host m h.1)
]

add_parts-HasNodes :
    (nodes parts : List String) (live : Collectors)
    → is_listed (join "!" parts) nodes ≡ true
    → All (HasNodes nodes) live
    → All (HasNodes nodes) (add_parts parts live)
unfolding add_parts put node_name join
add_parts-HasNodes nodes [] live l h = h
add_parts-HasNodes nodes (x ∷ []) live l h = h
add_parts-HasNodes nodes (host ∷ app ∷ []) live l h =
    All-insert (HasNodes nodes) host (insert app none (apps_of host live)) live
      (λ a k. elim (Bool-cases (str_eq app a)) [
        | inl c ↦ subst (λ x. is_listed (node_name host x) nodes ≡ true) (str_eq→eq app a c) l
        | inr c ↦ HasNodes-apps_of nodes host live h a (
            sym (
              has-insert app a none (apps_of host live)
              ∙ ap (λ b. b || has a (apps_of host live)) c)
            ∙ k)
      ])
      h
add_parts-HasNodes nodes (x ∷ y ∷ z ∷ parts) live l h = h

add_collectors-HasNodes :
    (nodes todo : List String) (live : Collectors)
    → All (λ n. is_listed n nodes ≡ true) todo
    → All (HasNodes nodes) live
    → All (HasNodes nodes) (add_collectors todo live)
unfolding add_collectors
add_collectors-HasNodes nodes [] live l h = h
add_collectors-HasNodes nodes (n ∷ todo) live l h =
    add_collectors-HasNodes nodes todo (add_parts (split b'!' n) live) l.1 (
      add_parts-HasNodes nodes (split b'!' n) live
        (subst (λ x. is_listed x nodes ≡ true) (sym (join-split "!" n)) l.0) h)

all_listed : (nodes : List String) → All (λ n. is_listed n nodes ≡ true) nodes
all_listed [] = tt
all_listed (n ∷ nodes) =
    (rw (str_eq_refl n) refl, All-map (λ m h. rw h (ground arith)) nodes (all_listed nodes))

refreshed-HasNodes :
    (nodes : List String) → All (HasNodes nodes) (refresh_registered_collectors (ok nodes))
unfolding refresh_registered_collectors
refreshed-HasNodes nodes = add_collectors-HasNodes nodes nodes [] (all_listed nodes) tt

add_parts_keeps :
    (h a : String) (parts : List String) (live : Collectors)
    → knows h a live ≡ true
    → knows h a (add_parts parts live) ≡ true
unfolding add_parts
add_parts_keeps h a [] live k = k
add_parts_keeps h a (x ∷ []) live k = k
add_parts_keeps h a (host ∷ app ∷ []) live k = knows-put host app h a none live ∙ ground (arith, k)
add_parts_keeps h a (x ∷ y ∷ z ∷ parts) live k = k

add_collectors_keeps :
    (h a : String) (nodes : List String) (live : Collectors)
    → knows h a live ≡ true
    → knows h a (add_collectors nodes live) ≡ true
unfolding add_collectors
add_collectors_keeps h a [] live k = k
add_collectors_keeps h a (n ∷ nodes) live k =
    add_collectors_keeps h a nodes (add_parts (split b'!' n) live)
      (add_parts_keeps h a (split b'!' n) live k)

split-node_name :
    (h a : String) → Lacks b'!' h → Lacks b'!' a → split b'!' (node_name h a) ≡ h ∷ a ∷ []
unfolding node_name split
split-node_name h a lh la =
    split-append b'!' h "!" a lh
      (ap (split b'!') (append_lem.cons "!" "" a) ∙ ap (λ x. "" ∷ split b'!' x) (append_lem.nil a))
    ∙ ap (λ l. h ∷ l) (split_one b'!' a la)

add_collectors_complete :
    (h a : String) (nodes : List String) (live : Collectors)
    → Lacks b'!' h
    → Lacks b'!' a
    → is_listed (node_name h a) nodes ≡ true
    → knows h a (add_collectors nodes live) ≡ true
unfolding add_collectors
add_collectors_complete h a [] live lh la k = cc k
add_collectors_complete h a (n ∷ nodes) live lh la k =
    elim (Bool-cases (str_eq n (node_name h a))) [
      | inl e ↦
          let parts : split b'!' n ≡ h ∷ a ∷ [] =
            ap (split b'!') (str_eq→eq n (node_name h a) e) ∙ split-node_name h a lh la in
          add_collectors_keeps h a nodes (add_parts (split b'!' n) live)
            (ap (λ l. knows h a (add_parts l live)) parts ∙ known h a live)
      | inr e ↦
          add_collectors_complete h a nodes (add_parts (split b'!' n) live) lh la
            (ground (arith, e, k))
    ]
  where
    known : (h a : String) (live : Collectors) → knows h a (add_parts (h ∷ a ∷ []) live) ≡ true
    known h a live = knows-put h a h a none live ∙ rw (str_eq_refl h) (rw (str_eq_refl a) refl)

of_implications : (x y : Bool) → (x ≡ true → y ≡ true) → (y ≡ true → x ≡ true) → x ≡ y
of_implications true y f g = sym (f refl)
of_implications false true f g = g refl
of_implications false false f g = refl

-- After a refresh a collector is known exactly when its node is among the children that ZooKeeper
-- answered, if neither its host nor its app has the separator in its name.
pub refresh-knows :
    (host app : String) (nodes : List String)
    → Lacks b'!' host
    → Lacks b'!' app
    → knows host app (refresh_registered_collectors (ok nodes))
      ≡ is_listed (node_name host app) nodes
unfolding refresh_registered_collectors
refresh-knows host app nodes lh la =
    of_implications (knows host app (refresh_registered_collectors (ok nodes)))
      (is_listed (node_name host app) nodes)
      (HasNodes-apps_of nodes host (add_collectors nodes []) (refreshed-HasNodes nodes) app)
      (add_collectors_complete host app nodes [] lh la)

is_live-has :
    (config : BaseConfig) (now : ℤ) (app : String) (apps : Map (Option BaseConfig))
    → is_live config now app apps ≡ true
    → has app apps ≡ true
unfolding is_live has
is_live-has config now app apps h = elim (Option-cases (lookup app apps)) [
  | inl e ↦ absurd (cc (h, e, not_live e))
  | inr (x, e) ↦ rw (e, has) refl
]
  where
    not_live : lookup app apps ≡ none → is_live config now app apps ≡ false
    not_live e = rw (e, is_live) refl

available-HasNodes :
    (config : BaseConfig) (now : ℤ) (app : String) (nodes : List String) (live : Collectors)
    → All (HasNodes nodes) live
    → All (λ h. is_listed (node_name h app) nodes ≡ true) (available_hosts config now app live)
unfolding available_hosts
available-HasNodes config now app nodes [] h = tt
available-HasNodes config now app nodes ((host, apps) ∷ live) h =
    elim (Bool-cases (is_live config now app apps)) [
      | inl c ↦ rw c (
        h.0 app (is_live-has config now app apps c),
        available-HasNodes config now app nodes live h.1,
      )
      | inr c ↦ rw c (available-HasNodes config now app nodes live h.1)
    ]

All-get_elem? :
    (P : String → Type 0) (l : List String) (i : ℕ)
    → All P l
    → i < length l
    → (x : String) × (get_elem? l i ≡ some x) × P x
All-get_elem? P [] i a h = elim h [ ]
All-get_elem? P (x ∷ l) zero a h = (x, refl, a.0)
All-get_elem? P (x ∷ l) (suc i) a h = All-get_elem? P l i a.1 (omega arith)

pick_lem :
    (P : String → Type 0) (r : ℕ) (hosts : List String)
    → All P hosts
    → str_eq (pick r hosts) "" ≡ false
    → P (pick r hosts)
unfolding pick
pick_lem P r [] a ne = absurd (cc (str_eq_refl "", ne))
pick_lem P r (h ∷ hs) a ne =
    let (x, e, p) = All-get_elem? P (h ∷ hs) (r % length (h ∷ hs)) a (mod-lt r (omega arith)) in
    rw (e, pick) p

-- A task goes to no host, or to one that, when the collectors were refreshed last, had a node for
-- the app of the task; whatever random number is drawn.
pub get_available_gathering_host_lem :
    (config task : BaseConfig) (now : ℤ) (r : ℕ) (nodes : List String)
    → str_eq
        (get_available_gathering_host config now r task (refresh_registered_collectors (ok nodes)))
        ""
      ≡ false
    → is_listed
        (node_name
          (get_available_gathering_host config now r task
            (refresh_registered_collectors (ok nodes)))
          (index Consts.app task))
        nodes
      ≡ true
unfolding get_available_gathering_host
get_available_gathering_host_lem config task now r nodes =
    let live = refresh_registered_collectors (ok nodes) in
    pick_lem (λ h. is_listed (node_name h (index Consts.app task)) nodes ≡ true) r
      (available_hosts config now (index Consts.app task) live)
      (available-HasNodes config now (index Consts.app task) nodes live (refreshed-HasNodes nodes))
