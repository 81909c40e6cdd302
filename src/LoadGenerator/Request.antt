-- ===== src/LoadGenerator/Request.antt =====
-- makeRandomRequest of docs/demo/load-generator/main.go up to the request that it sends, with
-- addRandomHeaders. The random numbers, the size of generateDynamicSize, the seconds of
-- generateDynamicDelay and what shouldReturnError answers are given.
use access_log_exporter.Prelude.{
  ℕ, zero, suc, ◌%◌, Bool, true, false, List, [], ◌∷◌, ◌++◌, Option, none, some, Bytes, codes,
  length, ltb, if◌then◌else◌,
}
use access_log_exporter.Nginx.Decimal.{decimal}
use access_log_exporter.LoadGenerator.Body.{ContentType, SizedReader, Draws, generate_random_body}

pub data Method : Type 0 where
  get post put patch delete head options : Method

-- the element of a slice that is not empty, at an index in its range
unfoldable pub at : {A : Type 0} → A → List A → ℕ → A
at first [] index = first
at first (second ∷ rest) zero = first
at first (second ∷ rest) (suc index) = at second rest index

-- `s[rand.Intn(len(s))]`
unfoldable pub pick : {A : Type 0} → A → List A → ℕ → A
unfolding at
pick first rest number = at first rest (number % suc (length rest))

-- `directEndpoints`
unfoldable pub direct_endpoint : ℕ → Bytes
unfolding pick
direct_endpoint =
    pick (codes "/direct/200")
      (codes "/direct/204" ∷ codes "/direct/404" ∷ codes "/direct/500" ∷ [])

-- `httpMethods`
unfoldable pub http_method : ℕ → Method
unfolding pick
http_method = pick get (post ∷ put ∷ patch ∷ delete ∷ head ∷ options ∷ [])

-- `httpbinEndpoints`
unfoldable pub httpbin_endpoint : ℕ → Bytes
unfolding pick
httpbin_endpoint = pick (codes "/httpbin/") (
    codes "/httpbin/get"
    ∷ codes "/httpbin/post"
    ∷ codes "/httpbin/put"
    ∷ codes "/httpbin/patch"
    ∷ codes "/httpbin/delete"
    ∷ codes "/httpbin/status/200"
    ∷ codes "/httpbin/status/201"
    ∷ codes "/httpbin/status/400"
    ∷ codes "/httpbin/status/404"
    ∷ codes "/httpbin/status/500"
    ∷ codes "/httpbin/headers"
    ∷ codes "/httpbin/ip"
    ∷ codes "/httpbin/user-agent"
    ∷ codes "/httpbin/json"
    ∷ codes "/httpbin/html"
    ∷ codes "/httpbin/xml"
    ∷ codes "/httpbin/uuid"
    ∷ codes "/httpbin/base64/encode"
    ∷ codes "/httpbin/base64/decode"
    ∷ [])

-- what the draws for a request give
pub record Choices : Type 0 where
  pub is_error : Bool
  pub choice : ℕ
  pub endpoint : ℕ
  pub method : ℕ
  pub size : ℕ
  pub delay_seconds : ℕ
  pub body_content_type : ContentType
  pub body_draws : Draws
  pub body_size : ℕ
  pub content_type : ℕ
  pub user_agent : ℕ
  pub accept : ℕ
  pub accept_encoding : ℕ
  pub has_request_id : ℕ
  pub request_id : ℕ

-- the seconds of the delay, at least 1 and at most 30
unfoldable pub delay_seconds_of : ℕ → ℕ
delay_seconds_of seconds =
    let at_least = if ltb seconds 1 then 1 else seconds in if ltb 30 at_least then 30 else at_least

unfoldable pub takes_body : Method → Bool
takes_body post = true
takes_body put = true
takes_body patch = true
takes_body _ = false

-- method, path behind the base URL, and body
pub record Chosen : Type 0 where
  pub method : Method
  pub path : Bytes
  pub body : Option SizedReader

abbrev pub get_of : Bytes → Chosen
get_of path = record { method = get; path = path; body = none }

-- the `default` of the switch
unfoldable pub other_endpoint : Choices → Chosen
unfolding httpbin_endpoint http_method takes_body generate_random_body
other_endpoint c = record {
  method = http_method c.method;
  path = httpbin_endpoint c.endpoint;
  body =
      if takes_body (http_method c.method)
      then some (generate_random_body c.body_content_type c.body_draws c.body_size)
      else none;
}

-- the choice of method, path and body
unfoldable pub choose : Choices → Chosen
unfolding direct_endpoint delay_seconds_of other_endpoint
choose c =
    let choice = c.choice % 100 in
    if c.is_error
    then get_of (codes "/direct/500")
    else if ltb choice 25
    then get_of (direct_endpoint c.endpoint)
    else if ltb choice 45
    then get_of (codes "/httpbin/bytes/" ++ decimal c.size)
    else if ltb choice 65
    then get_of (codes "/httpbin/delay/" ++ decimal (delay_seconds_of c.delay_seconds))
    else other_endpoint c

-- the headers that are set
pub record Header : Type 0 where
  pub content_type : Option Bytes
  pub user_agent : Option Bytes
  pub accept : Option Bytes
  pub accept_encoding : Option Bytes
  pub x_request_id : Option Bytes

pub record Request : Type 0 where
  pub method : Method
  pub url : Bytes
  pub body : Option SizedReader
  pub content_length : ℕ
  pub header : Header

-- `Set` if the draw is 0
unfoldable pub set_if_zero : ℕ → Bytes → Option Bytes
set_if_zero zero value = some value
set_if_zero (suc n) value = none

unfoldable pub random_content_type : ℕ → Bytes
unfolding pick
random_content_type = pick (codes "application/json") (
    codes "text/plain"
    ∷ codes "application/x-www-form-urlencoded"
    ∷ codes "application/octet-stream"
    ∷ [])

unfoldable pub random_user_agent : ℕ → Bytes
unfolding pick
random_user_agent = pick (codes "Mozilla/5.0 (Windows NT 10.0; Win64; x64) AppleWebKit/537.36") (
    codes "Mozilla/5.0 (Macintosh; Intel Mac OS X 10_15_7) AppleWebKit/537.36"
    ∷ codes "Mozilla/5.0 (X11; Linux x86_64) AppleWebKit/537.36"
    ∷ codes "curl/7.68.0"
    ∷ codes "wget/1.20.3"
    ∷ codes "PostmanRuntime/7.28.0"
    ∷ [])

-- `addRandomHeaders`, on a request without headers
unfoldable pub add_random_headers : Choices → Option SizedReader → Header
unfolding random_content_type random_user_agent set_if_zero
add_random_headers c body = record {
  content_type = elim body [
    | none ↦ none
    | some reader ↦ some (random_content_type c.content_type)
  ];
  user_agent = some (random_user_agent c.user_agent);
  accept = set_if_zero (c.accept % 2) (codes "application/json");
  accept_encoding = set_if_zero (c.accept_encoding % 2) (codes "gzip, deflate");
  x_request_id =
      set_if_zero (c.has_request_id % 3) (codes "req-" ++ decimal (c.request_id % 100000));
}

-- `ContentLength`, which is 0 without a body
unfoldable pub content_length_of : Option SizedReader → ℕ
content_length_of none = 0
content_length_of (some reader) = reader.size

-- `makeRandomRequest` up to `client.Do`; `is_url` tells whether `http.NewRequest` takes the URL
unfoldable pub make_random_request : (Bytes → Bool) → Bytes → Choices → Option Request
unfolding choose add_random_headers content_length_of
make_random_request is_url base_url c =
    let chosen = choose c in
    let url = base_url ++ chosen.path in
    if is_url url
    then some (record {
      method = chosen.method;
      url = url;
      body = chosen.body;
      content_length = content_length_of chosen.body;
      header = add_random_headers c chosen.body;
    })
    else none
