-- ===== src/Nginx/Collect.antt =====
-- New, its options, Describe and Collect of internal/nginx/collector.go. The parsed URL, the answer of
-- the server and the conversion of an integer to a float are given.
use access_log_exporter.Prelude.{
  ℕ, suc, ℤ, pos, Bool, true, false, ◌||◌, not, List, [], ◌∷◌, Option, none, some, Bytes, codes,
  str_eq, is_empty, ◌==◌, if◌then◌else◌,
}
use access_log_exporter.Strings.Search.{cut_prefix}
use access_log_exporter.Float.{Float64}
use access_log_exporter.Nginx.Scan.{items_of, scan}

-- `*http.Client`: the default one, that of a unix socket, or one that is passed in
pub data Client : Type 0 where
  default_client : Client
  unix_client : Bytes → Client
  given_client : ℕ → Client

-- the state of the collector; the duration is in nanoseconds
pub record Collector : Type 0 where
  pub client : Client
  pub scrape_url : Bytes
  pub timeout : ℤ

-- `defaultScrapeTimeout`
abbrev pub default_scrape_timeout : ℤ
default_scrape_timeout = pos 1000000000

-- `WithHTTPClient` and `WithTimeout`
pub data CollectorOption : Type 0 where
  with_http_client : Option Client → CollectorOption
  with_timeout : ℤ → CollectorOption

unfoldable pub is_positive : ℤ → Bool
is_positive (pos (suc n)) = true
is_positive _ = false

-- the function that the option is
unfoldable pub apply_option : CollectorOption → Collector → Collector
unfolding is_positive
apply_option (with_http_client none) c = c
apply_option (with_http_client (some client)) c = record c { client = client }
apply_option (with_timeout timeout) c =
    if is_positive timeout then record c { timeout = timeout } else c

unfoldable pub apply_options : List CollectorOption → Collector → Collector
unfolding apply_option
apply_options [] c = c
apply_options (o ∷ opts) c = apply_options opts (apply_option o c)

-- the scheme and the path of a parsed `url.URL`
pub record Url : Type 0 where
  pub scheme : Bytes
  pub path : Bytes

-- `newUnixHTTPClient`, where `http.DefaultTransport` is an `*http.Transport`
unfoldable pub new_unix_http_client : Option Url → Option Client
new_unix_http_client none = none
new_unix_http_client (some url) =
    if not (str_eq url.scheme (codes "unix")) || is_empty url.path
    then none
    else some (unix_client url.path)

unfoldable pub new : (Bytes → Option Url) → Bytes → List CollectorOption → Collector
unfolding apply_options new_unix_http_client
new parse scrape_url opts = elim (new_unix_http_client (parse scrape_url)) [
  | none ↦ apply_options opts (record {
    client = default_client;
    scrape_url = scrape_url;
    timeout = default_scrape_timeout;
  })
  | some client ↦ apply_options opts (record {
    client = client;
    scrape_url = codes "http://unix/";
    timeout = default_scrape_timeout;
  })
]

-- the descriptions of the metrics
pub data Desc : Type 0 where
  up_metric connections_accepted connections_active connections_handled : Desc
  connections_reading connections_waiting connections_writing : Desc

abbrev pub describe : List Desc
describe =
    up_metric ∷ connections_accepted ∷ connections_active ∷ connections_handled
    ∷ connections_reading ∷ connections_waiting ∷ connections_writing ∷ []

pub data ValueType : Type 0 where
  gauge_value counter_value : ValueType

-- a metric that is sent
pub record Sample : Type 0 where
  pub desc : Desc
  pub value_type : ValueType
  pub value : Float64
  pub labels : List Bytes

-- `StubConnections`
pub record StubConnections : Type 0 where
  pub active : ℤ
  pub accepted : ℤ
  pub handled : ℤ
  pub reading : ℤ
  pub writing : ℤ
  pub waiting : ℤ

-- the seven numbers that `Fscanf` reads by the template, in its order
pub record Scanned : Type 0 where
  pub stats : StubConnections
  pub ignored_requests : ℤ

-- an answer of the server, with the runes of its body
pub record Response : Type 0 where
  pub status_code : ℕ
  pub server : Bytes
  pub body : Bytes

-- `templateMetrics`
abbrev pub template_metrics : Bytes
template_metrics =
    codes
      "Active connections: %d\nserver accepts handled requests\n%d %d %d\nReading: %d Writing: %d Waiting: %d\n"

unfoldable pub scanned_of : List ℤ → Option Scanned
scanned_of (active ∷ accepted ∷ handled ∷ requests ∷ reading ∷ writing ∷ waiting ∷ []) =
    some (record {
      stats = record {
        active = active;
        accepted = accepted;
        handled = handled;
        reading = reading;
        writing = writing;
        waiting = waiting;
      };
      ignored_requests = requests;
    })
scanned_of _ = none

-- the call of `fmt.Fscanf`
unfoldable pub fscanf : Bytes → Option Scanned
unfolding scanned_of
fscanf body = elim (scan (items_of template_metrics) body) [ none ↦ none | some is ↦ scanned_of is ]

-- `parseStubStats`
unfoldable pub parse_stub_stats : Bytes → Option StubConnections
parse_stub_stats body = elim (fscanf body) [ none ↦ none | some scanned ↦ some scanned.stats ]

-- `defaultServerVersion`
abbrev pub default_server_version : Bytes
default_server_version = codes "N/A"

unfoldable pub server_version : Response → Bytes
server_version resp = elim (cut_prefix resp.server (codes "nginx/")) [
  | none ↦ default_server_version
  | some version ↦ version
]

-- `collectUp`
abbrev pub collect_up : Float64 → Bytes → Sample
collect_up value version = record {
  desc = up_metric;
  value_type = gauge_value;
  value = value;
  labels = version ∷ [];
}

-- `0` and `1` as float64
abbrev pub float_zero : Float64
float_zero = 0

abbrev pub float_one : Float64
float_one = 0x3ff0000000000000

module _ (to_float : ℤ → Float64) where
  abbrev pub sample_of : Desc → ValueType → ℤ → Sample
  sample_of desc value_type n = record {
    desc = desc;
    value_type = value_type;
    value = to_float n;
    labels = [];
  }

  unfoldable pub connection_samples : StubConnections → List Sample
  connection_samples stats =
      sample_of connections_active gauge_value stats.active
      ∷ sample_of connections_accepted counter_value stats.accepted
      ∷ sample_of connections_handled counter_value stats.handled
      ∷ sample_of connections_reading gauge_value stats.reading
      ∷ sample_of connections_writing gauge_value stats.writing
      ∷ sample_of connections_waiting gauge_value stats.waiting
      ∷ []

  -- behind the test of the status code
  unfoldable pub collect_body : Response → List Sample
  unfolding connection_samples parse_stub_stats
  collect_body resp = elim (parse_stub_stats resp.body) [
    | none ↦ collect_up float_zero (server_version resp) ∷ []
    | some stats ↦ collect_up float_one (server_version resp) ∷ connection_samples stats
  ]

  -- `Collect`: whether the request can be made, and the answer, if there is one
  unfoldable pub collect : Bool → Option Response → List Sample
  unfolding collect_body
  collect false answer = collect_up float_zero default_server_version ∷ []
  collect true none = collect_up float_zero default_server_version ∷ []
  collect true (some resp) = elim (resp.status_code == 200) [
    | false ↦ collect_up float_zero default_server_version ∷ []
    | true ↦ collect_body resp
  ]
