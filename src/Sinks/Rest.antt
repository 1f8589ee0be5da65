-- ===== src/Sinks/Rest.antt =====
-- sinks/splunk/splunk_rest.go: requests to a splunkd. The HTTP client and the codecs of URLs and
-- XML are parameters; `E` is the state of the network.
use Prim.Native.String.{◌++◌ as append}
use descartes_legacy.Prelude.{
  ℕ, zero, suc, String, ◌||◌, Option, none, some, List, [], ◌∷◌, ◌++◌, if◌then◌else◌,
}
use descartes_legacy.Prelude.Map.{Map, has}
use descartes_legacy.Prelude.Result.{Result, ok, err, Error}
use descartes_legacy.Base.Data.{Bytes}

pub record Request : Type 0 where
  pub method : String
  pub uri : String
  pub body : Option Bytes
  pub headers : List (String × String)

pub record Http : Type 1 where
  pub E : Type 0
  -- http.NewRequest
  pub new_request : String → String → Option Bytes → Result Request
  -- The body of the response is its reader, which may fail when it is read.
  pub do_request : Request → E → Result (Result Bytes) × E
  -- url.Values.Encode
  pub encode : List (String × String) → String
  -- The field sessionKey of the answer.
  pub session_key : Bytes → Result String

unfoldable pub add_headers : Request → Map String → String → Request
unfolding has
add_headers req headers session_key =
    let given = req.headers ++ headers in
    let typed =
      if has "Content-Type" headers || has "content-type" headers
      then given
      else given ++ ("Content-Type", "application/x-www-form-urlencoded") ∷ [] in
    record req { headers = typed ++ ("Authorization", append "Splunk " session_key) ∷ [] }

module _ (http : Http) where
  -- SplunkdRequest: the loop of `retry` rounds; its body returns on every path.
  unfoldable pub splunkd_request :
      String
      → String
      → String
      → Map String
      → Option Bytes
      → ℕ
      → http.E
      → Result (Option Bytes) × http.E
  unfolding add_headers
  splunkd_request uri session_key method headers body zero e = (ok none, e)
  splunkd_request uri session_key method headers body (suc retry) e =
      elim (http.new_request method uri body) [
        | err m ↦ (err m, e)
        | ok req ↦
            let (resp, e') = http.do_request (add_headers req headers session_key) e in
            elim resp [
              | err m ↦ (err m, e')
              | ok reader ↦ elim reader [ err m ↦ (err m, e') | ok res ↦ (ok (some res), e') ]
            ]
      ]

  -- IndexData
  unfoldable pub index_data :
      String → String → List (String × String) → Bytes → http.E → Error × http.E
  unfolding splunkd_request
  index_data splunkd_uri session_key meta_props body e =
      let uri =
        append splunkd_uri (append "/services/receivers/simple?" (http.encode meta_props)) in
      let (r, e') = splunkd_request uri session_key "POST" [] (some body) 3 e in
      (elim r [ ok _ ↦ none | err m ↦ some m ], e')

  -- Login: an answer that cannot be read counts as an empty session key without an error.
  unfoldable pub login : String → String → String → http.E → Result String × http.E
  login splunkd_uri username password e =
      let cred = http.encode (("username", username) ∷ ("password", password) ∷ []) in
      let uri = append splunkd_uri "/services/auth/login" in
      elim (http.new_request "POST" uri (some cred)) [
        | err m ↦ (err m, e)
        | ok req ↦
            let (resp, e') = http.do_request req e in
            elim resp [
              | err m ↦ (err m, e')
              | ok reader ↦ elim reader [
                | err m ↦ (ok "", e')
                | ok res ↦ (http.session_key res, e')
              ]
            ]
      ]
