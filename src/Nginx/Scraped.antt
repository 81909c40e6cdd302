-- ===== src/Nginx/Scraped.antt =====
-- What a scrape of internal/nginx/collector.go sends, and the timeout of the collector.
use mathlib.Core.Option.{some-injective}
use access_log_exporter.Prelude.{
  ℤ, ◌≡◌, ◌≢◌, refl, sym, ap, ◌∙◌, ◌⊎◌, inl, inr, Bool, true, false, List, [], ◌∷◌, ◌++◌, codes,
  Option, none, some, Bytes, Bool-cases, Option-cases, ==_iff, ◌==◌,
}
use access_log_exporter.Float.{Float64}
use access_log_exporter.Strings.Prefix.{cut_prefix-cases}
use access_log_exporter.Nginx.Scan.{items_of, scan}
use access_log_exporter.Nginx.Collect.{
  Desc, up_metric, connections_accepted, connections_active, connections_handled,
  connections_reading, connections_waiting, connections_writing, ValueType, gauge_value,
  counter_value, Sample, scanned_of, Collector, CollectorOption, with_http_client, with_timeout,
  is_positive, apply_option, apply_options, Url, new_unix_http_client, new, Response,
  server_version, connection_samples, template_metrics, fscanf, parse_stub_stats, collect_body,
  collect,
}

apply_option-positive :
    (o : CollectorOption) (c : Collector)
    → is_positive c.timeout ≡ true
    → is_positive (apply_option o c).timeout ≡ true
unfolding apply_option
apply_option-positive (with_http_client none) c h = h
apply_option-positive (with_http_client (some client)) c h = h
apply_option-positive (with_timeout timeout) c h = elim (Bool-cases (is_positive timeout)) [
  | inl p ↦ rw (p, apply_option) p
  | inr n ↦ rw (n, apply_option) h
]

apply_options-positive :
    (opts : List CollectorOption) (c : Collector)
    → is_positive c.timeout ≡ true
    → is_positive (apply_options opts c).timeout ≡ true
unfolding apply_options
apply_options-positive [] c h = h
apply_options-positive (o ∷ opts) c h =
    apply_options-positive opts (apply_option o c) (apply_option-positive o c h)

-- The collector that `New` returns has a positive timeout, whatever the URL and whatever options are
-- given, in any number and order.
pub new_positive :
    (parse : Bytes → Option Url) (scrape_url : Bytes) (opts : List CollectorOption)
    → is_positive (new parse scrape_url opts).timeout ≡ true
unfolding new is_positive
new_positive parse scrape_url opts = elim (Option-cases (new_unix_http_client (parse scrape_url))) [
  | inl e ↦ rw (e, new) (apply_options-positive opts _ refl)
  | inr (client, e) ↦ rw (e, new) (apply_options-positive opts _ refl)
]

true-ne-false : true ≢ false
true-ne-false = λ h. cc

none-ne-some : {is : List ℤ} → none ≢ some is
none-ne-some = λ h. cc

-- the seven numbers of a page, in the order of the page
pub record Numbers : Type 0 where
  pub active : ℤ
  pub accepted : ℤ
  pub handled : ℤ
  pub requests : ℤ
  pub reading : ℤ
  pub writing : ℤ
  pub waiting : ℤ

abbrev pub in_order : Numbers → List ℤ
in_order n = n.active ∷ n.accepted ∷ n.handled ∷ n.requests ∷ n.reading ∷ n.writing ∷ n.waiting ∷ []

-- the request was made, and the answer is a page of the expected format
abbrev pub IsScraped : Bool → Option Response → Response → Numbers → Type 0
IsScraped request answer resp n =
    (request ≡ true)
    × (answer ≡ some resp)
    × (resp.status_code ≡ 200)
    × (scan
          (items_of (
            codes
              "Active connections: %d\nserver accepts handled requests\n%d %d %d\nReading: %d Writing: %d Waiting: %d\n"))
          resp.body
        ≡ some (in_order n))

-- the version in the Server header
abbrev pub HasVersion : Bytes → Bytes → Type 0
HasVersion server version =
    (server ≡ codes "nginx/" ++ version)
    ⊎ (((rest : Bytes) → server ≢ codes "nginx/" ++ rest) × (version ≡ codes "N/A"))

-- the version that is sent with nginx_up 0
abbrev pub HasDownVersion : Option Response → Bytes → Type 0
HasDownVersion answer version =
    (version ≡ codes "N/A")
    ⊎ ((resp : Response) × (answer ≡ some resp)
        × (resp.status_code ≡ 200)
        × HasVersion resp.server version)

-- nginx_up
abbrev pub up : Float64 → Bytes → Sample
up value version = record {
  desc = up_metric;
  value_type = gauge_value;
  value = value;
  labels = version ∷ [];
}

server_version-HasVersion : (resp : Response) → HasVersion resp.server (server_version resp)
unfolding server_version
server_version-HasVersion resp = elim (cut_prefix-cases resp.server (codes "nginx/")) [
  | inl (rest, e, h) ↦ rw (e, server_version) (inl h)
  | inr (e, h) ↦ rw (e, server_version) (inr (h, refl))
]

-- seven numbers make a page, and nothing else does
scanned_of-cases :
    (is : List ℤ)
    → ((scanned_of is ≡ none) × ((n : Numbers) → is ≢ in_order n))
      ⊎ ((n : Numbers) × (is ≡ in_order n)
          × (scanned_of is
              ≡ some (record {
                stats = record {
                  active = n.active;
                  accepted = n.accepted;
                  handled = n.handled;
                  reading = n.reading;
                  writing = n.writing;
                  waiting = n.waiting;
                };
                ignored_requests = n.requests;
              })))
unfolding scanned_of
scanned_of-cases [] = inl (refl, λ n h. cc)
scanned_of-cases (a ∷ []) = inl (refl, λ n h. cc)
scanned_of-cases (a ∷ b ∷ []) = inl (refl, λ n h. cc)
scanned_of-cases (a ∷ b ∷ c ∷ []) = inl (refl, λ n h. cc)
scanned_of-cases (a ∷ b ∷ c ∷ d ∷ []) = inl (refl, λ n h. cc)
scanned_of-cases (a ∷ b ∷ c ∷ d ∷ e ∷ []) = inl (refl, λ n h. cc)
scanned_of-cases (a ∷ b ∷ c ∷ d ∷ e ∷ f ∷ []) = inl (refl, λ n h. cc)
scanned_of-cases (a ∷ b ∷ c ∷ d ∷ e ∷ f ∷ g ∷ []) = inr (
  record {
    active = a;
    accepted = b;
    handled = c;
    requests = d;
    reading = e;
    writing = f;
    waiting = g;
  },
  refl,
  refl,
)
scanned_of-cases (a ∷ b ∷ c ∷ d ∷ e ∷ f ∷ g ∷ h ∷ is) = inl (refl, λ n k. cc)

module _ (to_float : ℤ → Float64) where
  abbrev pub sent : Desc → ValueType → ℤ → Sample
  sent desc value_type n = record {
    desc = desc;
    value_type = value_type;
    value = to_float n;
    labels = [];
  }

  -- nginx_up 1 and the six connection metrics
  abbrev pub scrape_of : Bytes → Numbers → List Sample
  scrape_of version n =
      up 0x3ff0000000000000 version
      ∷ sent connections_active gauge_value n.active
      ∷ sent connections_accepted counter_value n.accepted
      ∷ sent connections_handled counter_value n.handled
      ∷ sent connections_reading gauge_value n.reading
      ∷ sent connections_writing gauge_value n.writing
      ∷ sent connections_waiting gauge_value n.waiting
      ∷ []

  abbrev pub Scrapes : Bool → Option Response → List Sample → Type 0
  Scrapes request answer samples =
      ((resp : Response) × (n : Numbers) × (version : Bytes) × IsScraped request answer resp n
        × HasVersion resp.server version
        × (samples ≡ scrape_of version n))
      ⊎ (((resp : Response) (n : Numbers) → ¬ IsScraped request answer resp n)
          × ((version : Bytes) × HasDownVersion answer version × (samples ≡ up 0 version ∷ [])))

  -- an answer that is no page
  no_page :
      (resp : Response)
      → resp.status_code ≡ 200
      → ((n : Numbers) → scan (items_of template_metrics) resp.body ≢ some (in_order n))
      → fscanf resp.body ≡ none
      → Scrapes true (some resp) (collect_body to_float resp)
  unfolding collect_body parse_stub_stats
  no_page resp status h e = inr (
    (λ other n k. h n (
        ap (λ (r : Response). scan (items_of template_metrics) r.body)
          (some-injective resp other k.1)
        ∙ k.3)),
    (
      server_version resp,
      inr (resp, refl, status, server_version-HasVersion resp),
      rw (e, collect_body, parse_stub_stats) refl,
    ),
  )

  Scrapes-body :
      (resp : Response)
      → resp.status_code ≡ 200
      → Scrapes true (some resp) (collect_body to_float resp)
  unfolding collect_body parse_stub_stats fscanf connection_samples
  Scrapes-body resp status = elim (Option-cases (scan (items_of template_metrics) resp.body)) [
    | inl e ↦ no_page resp status (λ n h. none-ne-some (sym e ∙ h)) (rw (e, fscanf) refl)
    | inr (is, e) ↦ elim (scanned_of-cases is) [
      | inl (k, other) ↦
          no_page resp status (λ n h. other n (some-injective is (in_order n) (sym e ∙ h)))
            (rw (e, fscanf) k)
      | inr (n, order, k) ↦ inl (
        resp,
        n,
        server_version resp,
        (refl, refl, status, e ∙ ap some order),
        server_version-HasVersion resp,
        rw (e, collect_body, parse_stub_stats, fscanf, k) refl,
      )
    ]
  ]

  -- A scrape either has an answer with status 200 whose body `Fscanf` reads as seven numbers by the
  -- template, and then sends nginx_up 1 and the six connection metrics, each with the number at its
  -- place on the page and of its type, the number of requests left out; or it has not, and then
  -- sends nginx_up 0 and nothing else. The version is what follows "nginx/" in the Server header of
  -- an answer with status 200, or "N/A"; on a page that is read it is "N/A" only if the header does
  -- not begin with "nginx/".
  pub collect_total :
      (request : Bool) (answer : Option Response)
      → Scrapes request answer (collect to_float request answer)
  unfolding collect
  collect_total false answer = inr ((λ resp n h. cc), (codes "N/A", inl refl, refl))
  collect_total true none = inr ((λ resp n h. cc), (codes "N/A", inl refl, refl))
  collect_total true (some resp) = elim (Bool-cases (resp.status_code == 200)) [
    | inr e ↦ inr (
      (λ other n h.
          let same : resp.status_code ≡ other.status_code =
            ap (λ (r : Response). r.status_code) (some-injective resp other h.1) in
          true-ne-false (sym ((==_iff resp.status_code 200).1 (same ∙ h.2)) ∙ e)),
      (codes "N/A", inl refl, rw (e, collect) refl),
    )
    | inl e ↦ rw (e, collect) (Scrapes-body resp ((==_iff resp.status_code 200).0 e))
  ]
