-- ===== src/Program/Served.antt =====
-- What a validated configuration and setupServer of cmd/access-log-exporter/main.go make of a program
-- that runs.
use access_log_exporter.Prelude.{
  ◌≡◌, ◌≢◌, refl, ap, subst, sym, ◌⊎◌, inl, inr, Bool, true, false, ◌&&◌, not, List, [], ◌∷◌, none,
  some, Bytes, codes, is_empty, str_eq, str_eq_iff, Bool-cases, Result, ok, err, panic,
  Result-cases, if◌then◌else◌,
}
use access_log_exporter.Config.Sections.{Config}
use access_log_exporter.Config.Validate.{find_preset, validate}
use access_log_exporter.Config.Laws.{validate_iff}
use access_log_exporter.Config.Flags.{Host}
use access_log_exporter.Config.Load.{LoadError, new}
use access_log_exporter.Program.Start.{validated, setup_configuration}
use access_log_exporter.Program.Server.{
  Handler, health, metrics, Route, routes, ends_in_slash, find_route, is_get, Served, handled,
  redirected, method_not_allowed, not_found, handle_by, match_or_redirect, serve, serves_tls,
}

abbrev health_route : Route
health_route = record { path = codes "/health"; handler = health }

abbrev metrics_route : Route
metrics_route = record { path = codes "/metrics"; handler = metrics }

abbrev plain_routes : List Route
plain_routes = health_route ∷ metrics_route ∷ []

-- the routes without the profiling
find_route-plain :
    (path : Bytes)
    → ((path ≡ codes "/health") × (find_route plain_routes path ≡ some health_route))
      ⊎ ((path ≡ codes "/metrics") × (find_route plain_routes path ≡ some metrics_route))
      ⊎ (find_route plain_routes path ≡ none)
unfolding find_route str_eq ends_in_slash
find_route-plain path = elim (Bool-cases (str_eq (codes "/health") path)) [
  | inl p ↦ let e = (str_eq_iff (codes "/health") path).0 p in inl (sym e, rw (← e) refl)
  | inr p ↦ elim (Bool-cases (str_eq (codes "/metrics") path)) [
    | inl q ↦ let e = (str_eq_iff (codes "/metrics") path).0 q in inr (inl (sym e, rw (← e) refl))
    | inr q ↦ inr (inr (rw (p, q, find_route) refl))
  ]
]

not_redirected :
    (b : Bool) (path : Bytes) (served : Served) (h : Handler)
    → (if b then redirected path else served) ≡ handled h
    → served ≡ handled h
not_redirected true path served h e = cc
not_redirected false path served h e = e

handled-Plain :
    (path : Bytes) (h : Handler)
    → handle_by (find_route plain_routes path) ≡ handled h
    → ((path ≡ codes "/health") × (h ≡ health)) ⊎ ((path ≡ codes "/metrics") × (h ≡ metrics))
handled-Plain path h e = elim (find_route-plain path) [
  | inl (p, f) ↦ inl (p, cc (rw f at e))
  | inr (inl (p, f)) ↦ inr (p, cc (rw f at e))
  | inr (inr f) ↦ cc (rw f at e)
]

get_only :
    (get : Bool) (served other : Served) (h : Handler)
    → other ≢ handled h
    → (if get then served else other) ≡ handled h
    → (get ≡ true) × (served ≡ handled h)
get_only true served other h ne e = (refl, e)
get_only false served other h ne e = absurd (ne e)

refused : (b : Bool) (h : Handler) → (if b then method_not_allowed else not_found) ≢ handled h
refused true h e = cc
refused false h e = cc

-- Without debug.enable the server handles only a GET or HEAD request, only of "/health" and
-- "/metrics", and each by its own handler: no request reaches the profiling.
pub serve-plain :
    (conf : Config) (method path : Bytes) (h : Handler)
    → conf.debug.enable ≡ false
    → serve conf method path ≡ handled h
    → (is_get method ≡ true)
      × (((path ≡ codes "/health") × (h ≡ health)) ⊎ ((path ≡ codes "/metrics") × (h ≡ metrics)))
unfolding serve routes match_or_redirect
serve-plain conf method path h plain e =
    let (get, m) = get_only (is_get method) _ _ h (refused _ h) (rw (plain, serve, routes) at e) in
    (get, handled-Plain path h (not_redirected _ _ _ h m))

validated_inverse :
    (loaded : Result LoadError Config) (conf : Config)
    → validated loaded ≡ ok conf
    → (loaded ≡ ok conf) × (validate conf ≡ ok tt)
unfolding validated
validated_inverse (panic p) conf e = cc
validated_inverse (err x) conf e = cc
validated_inverse (ok c) conf e = elim (Result-cases (validate c)) [
  | inl (_, v) ↦
      let same : c ≡ conf = cc (rw (v, validated) at e) in
      (ap ok same, subst (λ c. validate c ≡ ok tt) same v)
  | inr (inl (x, v)) ↦ cc (rw (v, validated) at e)
  | inr (inr (p, v)) ↦ cc (rw (v, validated) at e)
]

both_or_neither :
    (cert key : Bytes)
    → is_empty cert ≡ is_empty key
    → ((not (is_empty cert) && not (is_empty key) ≡ true) × (cert ≢ []) × (key ≢ []))
      ⊎ ((not (is_empty cert) && not (is_empty key) ≡ false) × (cert ≡ []) × (key ≡ []))
both_or_neither [] [] e = inr (refl, refl, refl)
both_or_neither [] (k ∷ key) e = cc
both_or_neither (c ∷ cert) [] e = cc
both_or_neither (c ∷ cert) (k ∷ key) e = inl (refl, (λ n. cc), λ n. cc)

-- The configuration that a start comes to has its preset among the presets, and it serves HTTPS with
-- both files, or plain HTTP because neither file is named.
pub setup_configuration-Servable :
    (host : Host) (args : List Bytes) (conf : Config)
    → setup_configuration host args ≡ ok conf
    → (find_preset conf.presets conf.preset ≢ none)
      × (((serves_tls conf ≡ true) × (conf.web.tls_cert_file ≢ []) × (conf.web.tls_key_file ≢ []))
          ⊎ ((serves_tls conf ≡ false)
              × (conf.web.tls_cert_file ≡ [])
              × (conf.web.tls_key_file ≡ [])))
unfolding setup_configuration serves_tls
setup_configuration-Servable host args conf e =
    let (_, v) = validated_inverse (new host args) conf e in
    let (found, same) = (validate_iff conf).0 v in
    (found, both_or_neither conf.web.tls_cert_file conf.web.tls_key_file same)
