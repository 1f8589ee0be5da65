-- ===== src/Sinks/Splunk.antt =====
-- sinks/splunk/splunk_data_writer.go and splunk_source_type.go: batches posted round robin to the
-- splunkds that accepted a login.
pub mod Rotation
mod Tests
use Prim.Native.String.{◌++◌ as append}
use descartes_legacy.Prelude.{
  ℕ, zero, suc, ◌+◌, ◌%◌, String, Bool, true, false, not, ◌||◌, Option, none, some, List, [], ◌∷◌,
  ◌++◌, if◌then◌else◌, str_eq, length, get_elem?, ◌==◌,
}
use descartes_legacy.Prelude.Map.{Map, index}
use descartes_legacy.Prelude.Result.{Result, ok, err, Error, Outcome, done, panic}
use descartes_legacy.Prelude.Text.{split}
use descartes_legacy.Base.Consts
use descartes_legacy.Base.Data.{Data, Bytes, BaseConfig}
use descartes_legacy.Sinks.Rest
use descartes_legacy.Sinks.Rest.{Http}

-- SourceAndSourcetype
unfoldable pub source_and_sourcetype : Map String → String × String
source_and_sourcetype config =
    let source = index Consts.source config in
    let sourcetype = index Consts.sourcetype config in
    if not (str_eq source "") || not (str_eq sourcetype "")
    then (source, sourcetype)
    else if str_eq (index Consts.app config) "snow"
    then (append "snow:" (index Consts.metric config), "snow")
    else if str_eq (index Consts.app config) Consts.kafka_app
    then (index Consts.metric config, Consts.kafka_app)
    else (source, sourcetype)

-- The raw data, each followed by a line break.
unfoldable pub all_data : List Bytes → Bytes
all_data [] = ""
all_data (d ∷ ds) = append d (append "\n" (all_data ds))

pub record SplunkDataWriter : Type 0 where
  pub splunkd_config : BaseConfig
  -- A URL and the key of its session.
  pub session_keys : List (String × String)
  -- `none` is the nil that Stop sends.
  pub data_q : List (Option Data)
  pub next_slot : ℕ
  pub started : Bool

unfoldable pub meta_props : SplunkDataWriter → Data → List (String × String)
unfolding source_and_sourcetype
meta_props writer d =
    let (source, sourcetype) = source_and_sourcetype d.meta_info in
    ("host", index Consts.server_url d.meta_info)
    ∷ ("index", index Consts.index writer.splunkd_config)
    ∷ ("source", source)
    ∷ ("sourcetype", sourcetype)
    ∷ []

-- WriteDataAsync and Stop put at the end of the queue.
unfoldable pub write_data_async : SplunkDataWriter → Data → SplunkDataWriter
write_data_async writer d = record writer { data_q = writer.data_q ++ some d ∷ [] }

unfoldable pub stop : SplunkDataWriter → SplunkDataWriter
stop writer = record writer { data_q = writer.data_q ++ none ∷ [] }

-- Start: the flag says whether this call starts the goroutine.
unfoldable pub start : SplunkDataWriter → SplunkDataWriter × Bool
start writer = if writer.started then (writer, false) else (record writer { started = true }, true)

module _ (http : Http) where
  -- The post of one round of the loop; a slot out of range panics.
  unfoldable pub post :
      List (String × String)
      → ℕ
      → List (String × String)
      → Bytes
      → http.E
      → Outcome (Error × http.E)
  post sessions slot props body e = elim (get_elem? sessions slot) [
    | none ↦ panic "index out of range"
    | some session ↦ done (Rest.index_data http session.0 session.1 props body e)
  ]

  -- The loop over the sessions: the slot it ends at, whether it broke out, and the network.
  unfoldable pub post_loop :
      ℕ
      → List (String × String)
      → ℕ
      → List (String × String)
      → Bytes
      → http.E
      → Outcome (ℕ × Bool × http.E)
  unfolding post
  post_loop zero sessions slot props body e = done (slot, false, e)
  post_loop (suc n) sessions slot props body e =
      let slot' = (slot + 1) % length sessions in
      elim (post sessions slot' props body e) [
        | panic m ↦ panic m
        | done p ↦ elim p.0 [
          | none ↦ done (slot', true, p.1)
          | some _ ↦ post_loop n sessions slot' props body p.1
        ]
      ]

  -- doWriteData: nil, whatever the posts answered.
  unfoldable pub do_write_data :
      SplunkDataWriter → Data → http.E → Outcome (Error × SplunkDataWriter × http.E)
  unfolding post_loop meta_props all_data
  do_write_data writer d e =
      let n = length writer.session_keys in
      elim (post_loop n writer.session_keys writer.next_slot (meta_props writer d)
        (all_data d.raw_data) e) [
          | panic m ↦ panic m
          | done x ↦ done (none, record writer { next_slot = x.0 }, x.2)
        ]

  -- The loop of login over the URLs.
  unfoldable pub login_all : List String → BaseConfig → http.E → List (String × String) × http.E
  login_all [] config e = ([], e)
  login_all (url ∷ urls) config e =
      let (r, e') =
        Rest.login http url (index Consts.username config) (index Consts.password config) e in
      let (rest, e'') = login_all urls config e' in
      (elim r [ ok key ↦ (url, key) ∷ rest | err _ ↦ rest ], e'')

  -- login: an error when no splunkd accepted.
  unfoldable pub login : SplunkDataWriter → http.E → Error × SplunkDataWriter × http.E
  unfolding login_all
  login writer e =
      let config = writer.splunkd_config in
      let (keys, e') = login_all (split b';' (index Consts.server_url config)) config e in
      let writer' = record writer { session_keys = keys } in
      if length keys == 0
      then (some "Failed to login all of Splunkds", writer', e')
      else (none, writer', e')

  -- NewSplunkDataWriter
  unfoldable pub new_splunk_data_writer : BaseConfig → http.E → Option SplunkDataWriter × http.E
  unfolding login
  new_splunk_data_writer config e =
      let (r, writer, e') =
        login
          (record {
            splunkd_config = config;
            session_keys = [];
            data_q = [];
            next_slot = 0;
            started = false;
          })
          e in
      (elim r [ none ↦ some writer | some _ ↦ none ], e')

  -- The goroutine of Start, over what the queue holds: it ends at the nil.
  unfoldable pub drain :
      List (Option Data) → SplunkDataWriter → http.E → Outcome (SplunkDataWriter × http.E)
  unfolding do_write_data
  drain [] writer e = done (record writer { data_q = [] }, e)
  drain (none ∷ q) writer e = done (record writer { data_q = q }, e)
  drain (some d ∷ q) writer e = elim (do_write_data writer d e) [
    | panic m ↦ panic m
    | done x ↦ drain q x.1 x.2
  ]

  -- WriteDataSync
  unfoldable pub write_data_sync :
      SplunkDataWriter → Data → http.E → Outcome (Error × SplunkDataWriter × http.E)
  unfolding do_write_data
  write_data_sync = do_write_data

  -- WriteData. The config value "0" selects the synchronous write.
  unfoldable pub write_data :
      SplunkDataWriter → Data → http.E → Outcome (Error × SplunkDataWriter × http.E)
  unfolding write_data_sync write_data_async
  write_data writer d e =
      if str_eq (index Consts.sync_write writer.splunkd_config) "0"
      then write_data_sync writer d e
      else done (none, write_data_async writer d, e)
