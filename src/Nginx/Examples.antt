-- ===== src/Nginx/Examples.antt =====
-- The theorems on the nginx collector, at one page.
use access_log_exporter.Prelude.{
  arith, ℤ, pos, ◌≡◌, refl, true, [], ◌∷◌, Option, none, some, Bytes, codes,
}
use access_log_exporter.Strings.Search.{cut_prefix}
use access_log_exporter.Float.{Float64}
use access_log_exporter.Nginx.Collect.{
  Url, with_timeout, with_http_client, is_positive, new, Response, server_version, collect_up,
  float_one, connections_active, connections_accepted, connections_handled, connections_reading,
  connections_writing, connections_waiting, gauge_value, counter_value, sample_of,
  connection_samples, fscanf, parse_stub_stats, collect,
}
use access_log_exporter.Config.Numbers.{atoi}
use access_log_exporter.Nginx.Scan.{items_of, scan}
use access_log_exporter.Nginx.Page.{Counters, page, collect-page}
use access_log_exporter.Nginx.Scraped.{new_positive, Scrapes, scrape_of, collect_total}

abbrev no_url : Bytes → Option Url
no_url s = none

new_positive_example :
    is_positive
      (new no_url (codes "http://n/s") (with_timeout (pos 0) ∷ with_http_client none ∷ [])).timeout
    ≡ true
new_positive_example =
    new_positive no_url (codes "http://n/s") (with_timeout (pos 0) ∷ with_http_client none ∷ [])

abbrev same_float : ℤ → Float64
same_float (pos n) = n
same_float _ = 0

abbrev page_of_test : Response
page_of_test = record {
  status_code = 200;
  server = codes "nginx/1.27";
  body =
      codes
        "Active connections: 1\nserver accepts handled requests\n12 11 10\nReading: 0 Writing: 2 Waiting: 3\n";
}

collect_total_example :
    Scrapes same_float true (some page_of_test) (collect same_float true (some page_of_test))
collect_total_example = collect_total same_float true (some page_of_test)

-- what is sent for this page
test_scraped :
    collect same_float true (some page_of_test)
    ≡ scrape_of same_float (codes "1.27") (record {
      active = pos 1;
      accepted = pos 12;
      handled = pos 11;
      requests = pos 10;
      reading = pos 0;
      writing = pos 2;
      waiting = pos 3;
    })
unfolding collect parse_stub_stats fscanf scan items_of atoi connection_samples server_version
    cut_prefix
test_scraped = refl

abbrev some_counters : Counters
some_counters = record {
  active = 291;
  accepted = 16630948;
  handled = 16630948;
  requests = 31070465;
  reading = 6;
  writing = 179;
  waiting = 106;
}

collect-page_example :
    collect same_float true
      (some (record { status_code = 200; server = codes "nginx"; body = page some_counters }))
    ≡ collect_up float_one (
        server_version
          (record { status_code = 200; server = codes "nginx"; body = page some_counters }))
      ∷ sample_of same_float connections_active gauge_value (pos 291)
      ∷ sample_of same_float connections_accepted counter_value (pos 16630948)
      ∷ sample_of same_float connections_handled counter_value (pos 16630948)
      ∷ sample_of same_float connections_reading gauge_value (pos 6)
      ∷ sample_of same_float connections_writing gauge_value (pos 179)
      ∷ sample_of same_float connections_waiting gauge_value (pos 106)
      ∷ []
collect-page_example = collect-page same_float (codes "nginx") some_counters (omega arith)

-- the page of the repository's own tests, which has no spaces at the ends of its lines
test_plain_page :
    parse_stub_stats (
      codes
        "Active connections: 1\nserver accepts handled requests\n10 10 10\nReading: 0 Writing: 1 Waiting: 0\n")
    ≡ some (record {
      active = pos 1;
      accepted = pos 10;
      handled = pos 10;
      reading = pos 0;
      writing = pos 1;
      waiting = pos 0;
    })
unfolding parse_stub_stats fscanf scan items_of atoi
test_plain_page = refl
