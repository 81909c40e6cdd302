-- ===== src/Nginx/Page.antt =====
-- The page of nginx (ngx_http_stub_status_module) and what internal/nginx/collector.go makes of it.
use access_log_exporter.Prelude.{
  ℕ, ℤ, pos, ◌^◌, ◌<◌, ◌≡◌, refl, ◌∙◌, ap, true, [], ◌∷◌, ◌++◌, some, Bytes, codes,
}
use access_log_exporter.Float.{Float64}
use access_log_exporter.Nginx.Scan.{items_of, scan}
use access_log_exporter.Nginx.Decimal.{decimal, add_number, scan-decimal, scan-spaced, scan-space}
use access_log_exporter.Nginx.Collect.{
  template_metrics, scanned_of, fscanf, parse_stub_stats, server_version, collect_up, float_one,
  sample_of, connections_active, connections_accepted, connections_handled, connections_reading,
  connections_writing, connections_waiting, gauge_value, counter_value, connection_samples,
  collect_body, collect,
}

-- the counters of nginx
pub record Counters : Type 0 where
  pub active : ℕ
  pub accepted : ℕ
  pub handled : ℕ
  pub requests : ℕ
  pub reading : ℕ
  pub writing : ℕ
  pub waiting : ℕ

-- the page, as nginx writes it, from its last line on
last_line : Counters → Bytes
last_line c =
    codes "Reading: "
    ++ (decimal c.reading
        ++ (codes " Writing: "
            ++ (decimal c.writing ++ (codes " Waiting: " ++ (decimal c.waiting ++ codes " \n")))))

third_line : Counters → Bytes
third_line c =
    codes " "
    ++ (decimal c.accepted
        ++ (codes " "
            ++ (decimal c.handled
                ++ (codes " " ++ (decimal c.requests ++ (codes " \n" ++ last_line c))))))

pub page : Counters → Bytes
page c =
    codes "Active connections: "
    ++ (decimal c.active ++ (codes " \nserver accepts handled requests\n" ++ third_line c))

-- all are 64-bit integers
pub record Fits (c : Counters) : Type 0 where
  pub active : c.active < 2 ^ 63
  pub accepted : c.accepted < 2 ^ 63
  pub handled : c.handled < 2 ^ 63
  pub requests : c.requests < 2 ^ 63
  pub reading : c.reading < 2 ^ 63
  pub writing : c.writing < 2 ^ 63
  pub waiting : c.waiting < 2 ^ 63

module _ (c : Counters) (fits : Fits c) where
  scan-waiting :
      scan
        (items_of (codes " Waiting: %d\n"))
        (codes " Waiting: " ++ (decimal c.waiting ++ codes " \n"))
      ≡ some (pos c.waiting ∷ [])
  unfolding scan items_of
  scan-waiting = scan-spaced c.waiting (items_of (codes "\n")) (codes " \n") fits.waiting refl

  scan-writing :
      scan (items_of (codes " Writing: %d Waiting: %d\n")) (
        codes " Writing: "
        ++ (decimal c.writing ++ (codes " Waiting: " ++ (decimal c.waiting ++ codes " \n"))))
      ≡ some (pos c.writing ∷ pos c.waiting ∷ [])
  unfolding scan items_of
  scan-writing =
      scan-spaced c.writing (items_of (codes " Waiting: %d\n"))
        (codes " Waiting: " ++ (decimal c.waiting ++ codes " \n")) fits.writing refl
      ∙ ap (add_number c.writing) scan-waiting

  scan-reading :
      scan (items_of (codes "Reading: %d Writing: %d Waiting: %d\n")) (last_line c)
      ≡ some (pos c.reading ∷ pos c.writing ∷ pos c.waiting ∷ [])
  unfolding scan items_of last_line
  scan-reading =
      scan-spaced c.reading (items_of (codes " Writing: %d Waiting: %d\n")) _ fits.reading refl
      ∙ ap (add_number c.reading) scan-writing

  scan-requests :
      scan
        (items_of (codes " %d\nReading: %d Writing: %d Waiting: %d\n"))
        (codes " " ++ (decimal c.requests ++ (codes " \n" ++ last_line c)))
      ≡ some (pos c.requests ∷ pos c.reading ∷ pos c.writing ∷ pos c.waiting ∷ [])
  unfolding scan items_of
  scan-requests =
      scan-spaced c.requests (items_of (codes "\nReading: %d Writing: %d Waiting: %d\n"))
        (codes " \n" ++ last_line c) fits.requests refl
      ∙ ap (add_number c.requests) scan-reading

  scan-handled :
      scan (items_of (codes " %d %d\nReading: %d Writing: %d Waiting: %d\n")) (
        codes " "
        ++ (decimal c.handled
            ++ (codes " " ++ (decimal c.requests ++ (codes " \n" ++ last_line c)))))
      ≡ some (pos c.handled ∷ pos c.requests ∷ pos c.reading ∷ pos c.writing ∷ pos c.waiting ∷ [])
  unfolding scan items_of
  scan-handled =
      scan-spaced c.handled (items_of (codes " %d\nReading: %d Writing: %d Waiting: %d\n"))
        (codes " " ++ (decimal c.requests ++ (codes " \n" ++ last_line c))) fits.handled refl
      ∙ ap (add_number c.handled) scan-requests

  -- the third line begins with a space, which the format does not have
  scan-accepted :
      scan (items_of (codes "%d %d %d\nReading: %d Writing: %d Waiting: %d\n")) (third_line c)
      ≡ some (
          pos c.accepted
          ∷ pos c.handled
          ∷ pos c.requests
          ∷ pos c.reading
          ∷ pos c.writing
          ∷ pos c.waiting
          ∷ [])
  unfolding items_of third_line
  scan-accepted =
      scan-space (items_of (codes " %d %d\nReading: %d Writing: %d Waiting: %d\n")) _
      ∙ scan-decimal c.accepted (items_of (codes " %d %d\nReading: %d Writing: %d Waiting: %d\n"))
          (codes " "
            ++ (decimal c.handled
                ++ (codes " " ++ (decimal c.requests ++ (codes " \n" ++ last_line c)))))
          fits.accepted refl
      ∙ ap (add_number c.accepted) scan-handled

  scan-page :
      scan (items_of template_metrics) (page c)
      ≡ some (
          pos c.active
          ∷ pos c.accepted
          ∷ pos c.handled
          ∷ pos c.requests
          ∷ pos c.reading
          ∷ pos c.writing
          ∷ pos c.waiting
          ∷ [])
  unfolding scan items_of page
  scan-page =
      scan-spaced c.active
        (items_of (
          codes
            "\nserver accepts handled requests\n%d %d %d\nReading: %d Writing: %d Waiting: %d\n"))
        (codes " \nserver accepts handled requests\n" ++ third_line c) fits.active refl
      ∙ ap (add_number c.active) scan-accepted

  parse_stub_stats-page :
      parse_stub_stats (page c)
      ≡ some (record {
        active = pos c.active;
        accepted = pos c.accepted;
        handled = pos c.handled;
        reading = pos c.reading;
        writing = pos c.writing;
        waiting = pos c.waiting;
      })
  unfolding parse_stub_stats fscanf scanned_of
  parse_stub_stats-page = rw (scan-page, parse_stub_stats, fscanf) refl

-- A scrape that is answered with status 200 and the page that nginx writes for its counters, all of
-- them below 2 ^ 63, sends nginx_up 1 with the server's version and these counters, each under the
-- name and with the type of its metric; the number of requests is not sent.
pub collect-page :
    (to_float : ℤ → Float64) (server : Bytes) (c : Counters)
    → Fits c
    → collect to_float true (some (record { status_code = 200; server = server; body = page c }))
      ≡ collect_up float_one
          (server_version (record { status_code = 200; server = server; body = page c }))
        ∷ sample_of to_float connections_active gauge_value (pos c.active)
        ∷ sample_of to_float connections_accepted counter_value (pos c.accepted)
        ∷ sample_of to_float connections_handled counter_value (pos c.handled)
        ∷ sample_of to_float connections_reading gauge_value (pos c.reading)
        ∷ sample_of to_float connections_writing gauge_value (pos c.writing)
        ∷ sample_of to_float connections_waiting gauge_value (pos c.waiting)
        ∷ []
unfolding collect collect_body connection_samples
collect-page to_float server c fits = rw (parse_stub_stats-page c fits, collect, collect_body) refl
