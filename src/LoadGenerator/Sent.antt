-- ===== src/LoadGenerator/Sent.antt =====
-- The bodies of docs/demo/load-generator/main.go and their announced lengths.
use access_log_exporter.Prelude.{
  arith, ℕ, ◌+◌, ◌<◌, ◌≤◌, ◌≡◌, refl, ◌∙◌, some, Bytes, codes, ◌++◌, length,
}
use access_log_exporter.Nginx.Decimal.{decimal}
use access_log_exporter.LoadGenerator.Reader.{Chunk, Promised, Delivers, copy, copy-all}
use access_log_exporter.LoadGenerator.Random.{new_random_reader}
use access_log_exporter.LoadGenerator.Randomly.{
  IsBuffered, read_random-Delivers, new_random_reader-IsBuffered, read_throttled-Delivers,
}
use access_log_exporter.LoadGenerator.Json.{new_json_reader}
use access_log_exporter.LoadGenerator.JsonBody
use access_log_exporter.LoadGenerator.JsonBody.{IsJson, read_json-Delivers, json_reader-IsJson}
use access_log_exporter.LoadGenerator.Form.{generate_streaming_form_data}
use access_log_exporter.LoadGenerator.FormBody
use access_log_exporter.LoadGenerator.FormBody.{IsForm, read_form-Delivers, form_reader-IsForm}
use access_log_exporter.LoadGenerator.Body.{
  ContentType, application_json, text_plain, form_urlencoded, octet_stream, BodyReader, json_body,
  random_body, form_body, SizedReader, max_bytes, Draws, body_of, generate_random_body, map_after,
  read_body, read_sized,
}

abbrev IsBody : BodyReader → Type 0
IsBody (json_body r) = IsJson r
IsBody (random_body r) = IsBuffered r
IsBody (form_body r) = IsForm r

abbrev body_left : BodyReader → ℕ
body_left (json_body r) = JsonBody.left r
body_left (random_body r) = r.remaining
body_left (form_body r) = FormBody.left r

abbrev body_stalls : BodyReader → ℕ
body_stalls (json_body r) = JsonBody.stalls r
body_stalls (random_body r) = 0
body_stalls (form_body r) = FormBody.stalls r

-- a promise is kept behind an interface
lifted :
    {S T : Type 0} {Inv : S → Type 0} {left stalls : S → ℕ} {Inv' : T → Type 0}
    {left' stalls' : T → ℕ} (f : S → T)
    → ((s : S) → Inv s → Inv' (f s))
    → ((s : S) → left' (f s) ≡ left s)
    → ((s : S) → stalls' (f s) ≡ stalls s)
    → (s : S) (len : ℕ) (chunk : Chunk S) → Promised Inv left stalls s len chunk
    → Promised Inv' left' stalls' (f s) len (map_after f chunk)
lifted f inv l st s len chunk p = record {
  keeps = inv chunk.after p.keeps;
  fits = p.fits;
  conserves = omega (arith, p.conserves, l s, l chunk.after);
  ends = λ e. l chunk.after ∙ p.ends e;
  progress = λ h e. omega (arith, p.progress h e, l s, l chunk.after, st s, st chunk.after);
}

module _ (random : ℕ → ℕ → ℕ) where
  read_body-Delivers : Delivers IsBody body_left body_stalls (read_body random)
  unfolding read_body
  read_body-Delivers (json_body r) len inv =
      lifted json_body (λ s h. h) (λ s. refl) (λ s. refl) r len _
        (read_json-Delivers random r len inv)
  read_body-Delivers (random_body r) len inv =
      lifted random_body (λ s h. h) (λ s. refl) (λ s. refl) r len _
        (read_random-Delivers random r len inv)
  read_body-Delivers (form_body r) len inv =
      lifted form_body (λ s h. h) (λ s. refl) (λ s. refl) r len _
        (read_form-Delivers random r len inv)

  read_sized-Delivers :
      Delivers
        (λ (r : SizedReader). IsBody r.reader × (0 < r.max_bytes_per_read))
        (λ r. body_left r.reader)
        (λ r. body_stalls r.reader)
        (read_sized random)
  unfolding read_sized
  read_sized-Delivers r len (inv, h) =
      lifted (λ reader. record r { reader = reader }) (λ s b. (b, h)) (λ s. refl) (λ s. refl)
        r.reader len _
        (read_throttled-Delivers (read_body random) IsBody body_left body_stalls
          r.max_bytes_per_read h read_body-Delivers r.reader len inv)

-- a body of a kind is in order and has the bytes of its size
body_of-IsBody :
    (content_type : ContentType) (d : Draws) (size : ℕ)
    → IsBody (body_of content_type d size).0
      × (body_left (body_of content_type d size).0 ≡ (body_of content_type d size).1)
      × (body_stalls (body_of content_type d size).0 ≤ 1)
unfolding body_of new_json_reader generate_streaming_form_data new_random_reader
body_of-IsBody application_json d size =
    let (inv, l, s) =
      json_reader-IsJson (codes "{\"id\": " ++ (decimal d.id ++ codes ", \"data\": \""))
        (codes "\", \"timestamp\": " ++ (decimal d.now ++ codes "}")) size (omega arith)
        (omega arith) in
    (inv, l, omega (arith, s))
body_of-IsBody text_plain d size = (new_random_reader-IsBuffered size, refl, omega arith)
body_of-IsBody form_urlencoded d size =
    let (inv, l, s) =
      form_reader-IsForm (codes "&field2=" ++ (decimal d.number ++ codes "&field3=")) size
        (omega arith) in
    (inv, l, omega (arith, s))
body_of-IsBody octet_stream d size = (new_random_reader-IsBuffered size, refl, omega arith)

-- The body of a request, of any content type, asked size and random draws, read with buffers of any
-- lengths but zero, comes to its end after at most two calls more than its announced size, without a
-- byte too many or too few: the bytes that are read are just as many as `Size`, which becomes the
-- Content-Length.
pub copy-body :
    (random : ℕ → ℕ → ℕ) (content_type : ContentType) (d : Draws) (size : ℕ) (len : ℕ → ℕ)
    → ((i : ℕ) → 0 < len i)
    → let body : SizedReader = generate_random_body content_type d size in
      (bytes : Bytes) × (copy (read_sized random) len (body.size + 2) body ≡ some bytes)
      × (length bytes ≡ body.size)
unfolding generate_random_body max_bytes
copy-body random content_type d size len positive =
    let (inv, l, s) = body_of-IsBody content_type d size in
    let body : SizedReader = generate_random_body content_type d size in
    let (bytes, p, q) =
      copy-all (read_sized random)
        (λ (r : SizedReader). IsBody r.reader × (0 < r.max_bytes_per_read))
        (λ r. body_left r.reader) (λ r. body_stalls r.reader) (read_sized-Delivers random) len
        positive (body.size + 2) body (inv, omega arith) (omega (arith, l, s)) in
    (bytes, p, q ∙ l)
