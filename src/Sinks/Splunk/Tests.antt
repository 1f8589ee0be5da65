-- ===== src/Sinks/Splunk/Tests.antt =====
-- Two splunkds, of which the second takes no data.
use descartes_legacy.Prelude.{◌≡◌, refl, String, none, List, [], ◌∷◌, true, if◌then◌else◌, suc, ℕ}
use descartes_legacy.Prelude.Result.{ok, err, done}
use descartes_legacy.Base.Consts
use descartes_legacy.Base.Data.{Data}
use descartes_legacy.Prelude.Text.{has_prefix}
use descartes_legacy.Sinks.Rest.{Http, index_data, splunkd_request}
use descartes_legacy.Sinks.Splunk.{SplunkDataWriter, do_write_data, post_loop, post}

-- Requests to a host whose name starts with `a` are answered; the state counts the requests.
abbrev half : Http
half = record {
  E = ℕ;
  new_request =
      λ method uri body. ok (record { method = method; uri = uri; body = body; headers = [] });
  do_request = λ req n. (if has_prefix req.uri "a" then ok (ok "<ok/>") else err "refused", suc n);
  encode = λ props. "p";
  session_key = λ body. ok "k";
}

abbrev sessions : List (String × String)
sessions = ("a", "k") ∷ ("b", "l") ∷ []

abbrev hello : Data
hello = record { meta_info = (Consts.source, "s") ∷ []; raw_data = "hello" ∷ [] }

abbrev writer : SplunkDataWriter
writer = record {
  splunkd_config = [];
  session_keys = sessions;
  data_q = [];
  next_slot = 0;
  started = true;
}

-- The first round asks the second session, which refuses, and the second round the first one.
second_round : post_loop half 2 sessions 0 [] "x" 0 ≡ done (0, true, 2)
unfolding post_loop post index_data splunkd_request
second_round = refl

-- Data that the only splunkd refuses are lost without an error.
lost :
    do_write_data half (record writer { session_keys = ("b", "l") ∷ [] }) hello 0
    ≡ done (none, record writer { session_keys = ("b", "l") ∷ [] }, 1)
unfolding do_write_data post_loop post index_data splunkd_request
lost = refl
