-- ===== src/LoadGenerator/Examples.antt =====
-- The theorem on the bodies, at a form of forty bytes that is read in pieces of three.
use access_log_exporter.Prelude.{
  arith, ℕ, ◌+◌, ◌≡◌, refl, true, false, none, some, Bytes, codes, length,
}
use access_log_exporter.LoadGenerator.Reader.{copy}
use access_log_exporter.LoadGenerator.Body.{
  form_urlencoded, SizedReader, Draws, generate_random_body, read_sized,
}
use access_log_exporter.LoadGenerator.Request.{Method, Choices, Request, make_random_request}
use access_log_exporter.LoadGenerator.Requested.{Fits, make_random_request-Fits}
use access_log_exporter.LoadGenerator.Sent.{copy-body}

abbrev some_draws : Draws
some_draws = record { id = 7; now = 1700000000; number = 42; throttling = 0 }

abbrev some_random : ℕ → ℕ → ℕ
some_random fill i = fill + i

test_copy :
    let body : SizedReader = generate_random_body form_urlencoded some_draws 40 in
    (bytes : Bytes) × (copy (read_sized some_random) (λ i. 3) (body.size + 2) body ≡ some bytes)
    × (length bytes ≡ body.size)
test_copy = copy-body some_random form_urlencoded some_draws 40 (λ i. 3) (λ i. omega arith)

-- the draws of a POST to the root of httpbin with a form
abbrev some_choices : Choices
some_choices = record {
  is_error = false;
  choice = 99;
  endpoint = 20;
  method = 1;
  size = 100;
  delay_seconds = 0;
  body_content_type = form_urlencoded;
  body_draws = some_draws;
  body_size = 40;
  content_type = 0;
  user_agent = 3;
  accept = 1;
  accept_encoding = 0;
  has_request_id = 1;
  request_id = 12;
}

abbrev some_request : Request
some_request = record {
  method = Method.post;
  url = codes "http://nginx/httpbin/";
  body = some (generate_random_body form_urlencoded some_draws 40);
  content_length = (generate_random_body form_urlencoded some_draws 40).size;
  header = record {
    content_type = some (codes "application/json");
    user_agent = some (codes "curl/7.68.0");
    accept = none;
    accept_encoding = some (codes "gzip, deflate");
    x_request_id = none;
  };
}

make_random_request-Fits_example :
    Fits some_random
      (λ i. 3)
      some_request.method
      some_request.body
      some_request.content_length
      some_request.header.content_type
unfolding make_random_request
make_random_request-Fits_example =
    make_random_request-Fits some_random (λ i. 3) (λ url. true) (codes "http://nginx") some_choices
      some_request (λ i. omega arith) refl
