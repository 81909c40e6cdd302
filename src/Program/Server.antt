-- ===== src/Program/Server.antt =====
-- setupServer and setupPrometheusRegistry of cmd/access-log-exporter/main.go, the choice between HTTP
-- and HTTPS in run, and what `http.ServeMux` does with the patterns, on a path that it has cleaned.
use access_log_exporter.Prelude.{
  Bool, true, false, ◌&&◌, ◌||◌, not, List, [], ◌∷◌, ◌++◌, Option, none, some, Bytes, codes, length,
  ltb, ◌==◌, str_eq, is_empty, if◌then◌else◌,
}
use access_log_exporter.Strings.Search.{has_prefix}
use access_log_exporter.Config.Sections.{ParsedUrl, Config}
use access_log_exporter.Config.Url.{is_empty_url, marshal_text}
use access_log_exporter.Nginx.Collect

pub data Handler : Type 0 where
  health metrics redirect_to_pprof pprof_index pprof_cmdline pprof_profile pprof_symbol
        pprof_trace :
      Handler

-- a pattern "GET path" and its handler
pub record Route : Type 0 where
  pub path : Bytes
  pub handler : Handler

abbrev debug_routes : List Route
debug_routes =
    record { path = codes "/"; handler = redirect_to_pprof }
    ∷ record { path = codes "/debug/pprof/"; handler = pprof_index }
    ∷ record { path = codes "/debug/pprof/cmdline"; handler = pprof_cmdline }
    ∷ record { path = codes "/debug/pprof/profile"; handler = pprof_profile }
    ∷ record { path = codes "/debug/pprof/symbol"; handler = pprof_symbol }
    ∷ record { path = codes "/debug/pprof/trace"; handler = pprof_trace }
    ∷ []

-- `setupServer`: what it registers
unfoldable pub routes : Config → List Route
routes conf =
    record { path = codes "/health"; handler = health }
    ∷ record { path = codes "/metrics"; handler = metrics }
    ∷ (if conf.debug.enable then debug_routes else [])

unfoldable pub ends_in_slash : Bytes → Bool
ends_in_slash [] = false
ends_in_slash (c ∷ []) = c == b'/'
ends_in_slash (c ∷ d ∷ s) = ends_in_slash (d ∷ s)

-- a pattern that ends in a slash stands for all paths that begin with it
unfoldable pub matches : Bytes → Bytes → Bool
unfolding has_prefix
matches pattern path =
    if ends_in_slash pattern then has_prefix path pattern else str_eq pattern path

abbrev longer : Route → Option Route → Option Route
longer r none = some r
longer r (some q) = if ltb (length r.path) (length q.path) then some q else some r

-- the most specific pattern, which is here the longest
unfoldable pub find_route : List Route → Bytes → Option Route
unfolding matches
find_route [] path = none
find_route (r ∷ rs) path =
    if matches r.path path then longer r (find_route rs path) else find_route rs path

-- "GET" also stands for HEAD
unfoldable pub is_get : Bytes → Bool
is_get method = str_eq method (codes "GET") || str_eq method (codes "HEAD")

pub data Served : Type 0 where
  handled : Handler → Served
  redirected : Bytes → Served
  not_found method_not_allowed : Served

abbrev is_some {ℓ} : {A : Type ℓ} → Option A → Bool
is_some none = false
is_some (some a) = true

abbrev is_exact : Option Route → Bytes → Bool
is_exact none path = false
is_exact (some r) path = not (ends_in_slash r.path) || str_eq r.path path

abbrev pub handle_by : Option Route → Served
handle_by none = not_found
handle_by (some r) = handled r.handler

-- `matchOrRedirect`: a path that has no pattern of its own, but one with a slash behind it, is
-- redirected there
unfoldable pub match_or_redirect : List Route → Bytes → Served
unfolding find_route
match_or_redirect rs path =
    if not (is_exact (find_route rs path) path)
      && not (ends_in_slash path)
      && is_exact (find_route rs (path ++ codes "/")) (path ++ codes "/")
    then redirected (path ++ codes "/")
    else handle_by (find_route rs path)

-- what a request is answered by
unfoldable pub serve : Config → Bytes → Bytes → Served
unfolding routes is_get match_or_redirect
serve conf method path =
    if is_get method
    then match_or_redirect (routes conf) path
    else if is_some (find_route (routes conf) path)
        || (not (ends_in_slash path) && is_some (find_route (routes conf) (path ++ codes "/")))
    then method_not_allowed
    else not_found

-- whether `ListenAndServeTLS` is called
unfoldable pub serves_tls : Config → Bool
serves_tls conf = not (is_empty conf.web.tls_cert_file) && not (is_empty conf.web.tls_key_file)

pub data Registered : Type 0 where
  go_collector build_info_collector process_collector version_collector exporter : Registered
  nginx_collector : Collect.Collector → Registered

-- `setupPrometheusRegistry`; how `url.Parse` reads the address of nginx is given
unfoldable pub setup_prometheus_registry : (Bytes → Option Collect.Url) → Config → List Registered
setup_prometheus_registry parse conf =
    go_collector
    ∷ build_info_collector
    ∷ process_collector
    ∷ version_collector
    ∷ exporter
    ∷ (if is_empty_url (λ s. none) (λ (u : ParsedUrl). u.string) conf.nginx.scrape_url
        then []
        else nginx_collector (
            Collect.new parse
              (marshal_text (λ s. none) (λ (u : ParsedUrl). u.string) conf.nginx.scrape_url)
              (Collect.with_timeout conf.nginx.scrape_timeout ∷ []))
          ∷ [])
