-- ===== src/LoadGenerator/Requested.antt =====
-- The requests of docs/demo/load-generator/main.go.
use access_log_exporter.Prelude.{
  ℕ, ◌+◌, ◌%◌, ◌<◌, ◌≡◌, ◌≢◌, refl, Bool, true, false, ◌++◌, Option, none, some, Bytes, length, ltb,
  codes, subst, Bool-cases, if◌then◌else◌, inl, inr,
}
use mathlib.Core.Option.{some-injective}
use access_log_exporter.Nginx.Decimal.{decimal}
use access_log_exporter.LoadGenerator.Reader.{copy}
use access_log_exporter.LoadGenerator.Body.{SizedReader, read_sized}
use access_log_exporter.LoadGenerator.Sent.{copy-body}
use access_log_exporter.LoadGenerator.Request.{
  Method, http_method, Choices, takes_body, Chosen, get_of, direct_endpoint, delay_seconds_of,
  other_endpoint, choose, Request, add_random_headers, content_length_of, make_random_request,
}

module _ (random : ℕ → ℕ → ℕ) (len : ℕ → ℕ) where
  -- the body is read to its end, and has as many bytes as the number tells
  abbrev pub IsReadFully : SizedReader → ℕ → Type 0
  IsReadFully body size =
      (bytes : Bytes) × (copy (read_sized random) len (size + 2) body ≡ some bytes)
      × (length bytes ≡ size)

  -- what holds of a method, a body, the Content-Length and the Content-Type
  abbrev pub Fits : Method → Option SizedReader → ℕ → Option Bytes → Type 0
  Fits method none size content_type =
      (takes_body method ≡ false) × (size ≡ 0) × (content_type ≡ none)
  Fits method (some body) size content_type =
      (takes_body method ≡ true) × IsReadFully body size × (content_type ≢ none)

  abbrev IsFitting : Choices → Chosen → Type 0
  IsFitting c chosen =
      Fits chosen.method chosen.body (content_length_of chosen.body)
        (add_random_headers c chosen.body).content_type

  other_endpoint-IsFitting : (c : Choices) → ((i : ℕ) → 0 < len i) → IsFitting c (other_endpoint c)
  unfolding other_endpoint content_length_of add_random_headers
  other_endpoint-IsFitting c positive = elim (Bool-cases (takes_body (http_method c.method))) [
    | inl t ↦
        rw (t, other_endpoint)
          (t, copy-body random c.body_content_type c.body_draws c.body_size len positive, λ e. cc)
    | inr f ↦ rw (f, other_endpoint) (f, refl, refl)
  ]

  get_of-IsFitting : (c : Choices) (path : Bytes) → IsFitting c (get_of path)
  unfolding content_length_of add_random_headers takes_body
  get_of-IsFitting c path = (refl, refl, refl)

  if-IsFitting :
      (c : Choices) (b : Bool) (x y : Chosen)
      → IsFitting c x
      → IsFitting c y
      → IsFitting c (if b then x else y)
  if-IsFitting c true x y p q = p
  if-IsFitting c false x y p q = q

  choose-IsFitting : (c : Choices) → ((i : ℕ) → 0 < len i) → IsFitting c (choose c)
  unfolding choose
  choose-IsFitting c positive =
      if-IsFitting c c.is_error _ _ (get_of-IsFitting c (codes "/direct/500")) (
        if-IsFitting c (ltb (c.choice % 100) 25) _ _
          (get_of-IsFitting c (direct_endpoint c.endpoint))
          (if-IsFitting c (ltb (c.choice % 100) 45) _ _
            (get_of-IsFitting c (codes "/httpbin/bytes/" ++ decimal c.size))
            (if-IsFitting c (ltb (c.choice % 100) 65) _ _
              (get_of-IsFitting c
                (codes "/httpbin/delay/" ++ decimal (delay_seconds_of c.delay_seconds)))
              (other_endpoint-IsFitting c positive))))

  abbrev FitsRequest : Request → Type 0
  FitsRequest r = Fits r.method r.body r.content_length r.header.content_type

  FitsRequest-kept :
      (b : Bool) (made request : Request)
      → (if b then some made else none) ≡ some request
      → FitsRequest made
      → FitsRequest request
  FitsRequest-kept true made request e h =
      subst (λ r. FitsRequest r) (some-injective made request e) h
  FitsRequest-kept false made request e h = let refused : none ≡ some request = e in cc

  -- A request that the load generator makes, whatever the random draws are, has a body just when its
  -- method is POST, PUT or PATCH; then the body, read with buffers of any lengths but zero, comes to
  -- its end with as many bytes as the Content-Length tells, and a Content-Type is set. Without a
  -- body the Content-Length is 0 and no Content-Type is set.
  pub make_random_request-Fits :
      (is_url : Bytes → Bool) (base_url : Bytes) (c : Choices) (request : Request)
      → ((i : ℕ) → 0 < len i)
      → make_random_request is_url base_url c ≡ some request
      → Fits request.method request.body request.content_length request.header.content_type
  unfolding make_random_request
  make_random_request-Fits is_url base_url c request positive made =
      FitsRequest-kept (is_url (base_url ++ (choose c).path)) _ request made
        (choose-IsFitting c positive)
