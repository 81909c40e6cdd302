-- ===== src/LoadGenerator/Body.antt =====
-- generateRandomBody, generateRandomThrottling and SizedReader of docs/demo/load-generator/main.go. The
-- size that generateDynamicSize gives, the other random numbers and the time are given.
use access_log_exporter.Prelude.{ℕ, ◌+◌, ◌%◌}
use access_log_exporter.LoadGenerator.Reader.{Chunk, Reads}
use access_log_exporter.LoadGenerator.Random.{
  RandomReader, new_random_reader, read_random, read_throttled,
}
use access_log_exporter.LoadGenerator.Json.{JsonReader, new_json_reader, json_size, read_json}
use access_log_exporter.LoadGenerator.Form.{FormReader, generate_streaming_form_data, read_form}

-- `contentTypes`
pub data ContentType : Type 0 where
  application_json text_plain form_urlencoded octet_stream : ContentType

-- the reader behind the interface `io.Reader`
pub data BodyReader : Type 0 where
  json_body : JsonReader → BodyReader
  random_body : RandomReader → BodyReader
  form_body : FormReader → BodyReader

-- `SizedReader` of a `ThrottledReader`
pub record SizedReader : Type 0 where
  pub reader : BodyReader
  pub max_bytes_per_read : ℕ
  pub size : ℕ

-- `maxBytesPerRead` of `generateRandomThrottling`
unfoldable pub max_bytes : ℕ → ℕ
max_bytes number = 100 + number % 65436

-- what the draws of a body give
pub record Draws : Type 0 where
  pub id : ℕ
  pub now : ℕ
  pub number : ℕ
  pub throttling : ℕ

-- `switch contentType`: the reader and its size
unfoldable pub body_of : ContentType → Draws → ℕ → BodyReader × ℕ
body_of application_json d size =
    let reader = new_json_reader d.id d.now size in (json_body reader, json_size reader)
body_of text_plain d size = (random_body (new_random_reader size), size)
body_of form_urlencoded d size =
    let reader = generate_streaming_form_data d.number size in
    (form_body reader, reader.actual_size)
body_of octet_stream d size = (random_body (new_random_reader size), size)

-- `generateRandomBody`
unfoldable pub generate_random_body : ContentType → Draws → ℕ → SizedReader
unfolding body_of max_bytes
generate_random_body content_type d size = record {
  reader = (body_of content_type d size).0;
  max_bytes_per_read = max_bytes d.throttling;
  size = (body_of content_type d size).1;
}

-- a chunk of the reader behind the interface
abbrev pub map_after : {S T : Type 0} → (S → T) → Chunk S → Chunk T
map_after f chunk = record { bytes = chunk.bytes; eof = chunk.eof; after = f chunk.after }

module _ (random : ℕ → ℕ → ℕ) where
  unfoldable pub read_body : Reads BodyReader
  read_body (json_body r) len = map_after json_body (read_json random r len)
  read_body (random_body r) len = map_after random_body (read_random random r len)
  read_body (form_body r) len = map_after form_body (read_form random r len)

  -- `Read` of `SizedReader`
  unfoldable pub read_sized : Reads SizedReader
  read_sized r len =
      map_after (λ reader. record r { reader = reader })
        (read_throttled read_body r.max_bytes_per_read r.reader len)
