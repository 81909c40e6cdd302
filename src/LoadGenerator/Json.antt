-- ===== src/LoadGenerator/Json.antt =====
-- StreamingJSONReader and StreamingFormReader of docs/demo/load-generator/main.go. A number is printed
-- by its digits; `id`, `now` and `number` are what `rand.Intn` and the clock give.
use access_log_exporter.Prelude.{
  ℕ, zero, suc, ◌+◌, ◌-◌, Bool, true, false, [], ◌++◌, Bytes, codes, length, take, drop, ltb, leb,
  if◌then◌else◌,
}
use access_log_exporter.Nginx.Decimal.{decimal}
use access_log_exporter.LoadGenerator.Reader.{Reads}
use access_log_exporter.LoadGenerator.Random.{min, RandomReader, new_random_reader, read_random}

-- the cases of `state`
pub data JsonState : Type 0 where
  header data_content footer done : JsonState

pub record JsonReader : Type 0 where
  pub data_reader : RandomReader
  pub header_buf : Bytes
  pub footer_buf : Bytes
  pub state : JsonState
  pub data_size : ℕ
  pub data_read : ℕ
  pub header_pos : ℕ
  pub footer_pos : ℕ

-- `NewStreamingJSONReader`, behind the two texts
unfoldable pub json_reader : Bytes → Bytes → ℕ → JsonReader
json_reader header_text footer_text total_size =
    let rest : ℕ = total_size - length header_text - length footer_text in
    let size : ℕ = if ltb rest 1 then 1 else rest in
    record {
      data_reader = new_random_reader size;
      header_buf = header_text;
      footer_buf = footer_text;
      state = header;
      data_size = size;
      data_read = 0;
      header_pos = 0;
      footer_pos = 0;
    }

unfoldable pub new_json_reader : ℕ → ℕ → ℕ → JsonReader
unfolding json_reader
new_json_reader id now total_size =
    json_reader (codes "{\"id\": " ++ (decimal id ++ codes ", \"data\": \""))
      (codes "\", \"timestamp\": " ++ (decimal now ++ codes "}")) total_size

-- `ActualSize`
unfoldable pub json_size : JsonReader → ℕ
json_size r = length r.header_buf + r.data_size + length r.footer_buf

-- the bytes of a text from a position on that fit
abbrev pub piece : Bytes → ℕ → ℕ → Bytes
piece text pos len = take (min len (length text - pos)) (drop pos text)

module _ (random : ℕ → ℕ → ℕ) where
  unfoldable pub read_header : Reads JsonReader
  read_header r len =
      let pos : ℕ = r.header_pos + min len (length r.header_buf - r.header_pos) in
      record {
        bytes = piece r.header_buf r.header_pos len;
        eof = false;
        after = record r {
          header_pos = pos;
          state = if leb (length r.header_buf) pos then data_content else header;
        };
      }

  unfoldable pub read_data : Reads JsonReader
  read_data r len =
      let chunk = read_random random r.data_reader len in
      record {
        bytes = chunk.bytes;
        eof = false;
        after = record r {
          data_reader = chunk.after;
          data_read = r.data_read + length chunk.bytes;
          state = if chunk.eof then footer else data_content;
        };
      }

  unfoldable pub read_footer : Reads JsonReader
  read_footer r len =
      let pos : ℕ = r.footer_pos + min len (length r.footer_buf - r.footer_pos) in
      let at_end : Bool = leb (length r.footer_buf) pos in
      record {
        bytes = piece r.footer_buf r.footer_pos len;
        eof = at_end;
        after = record r { footer_pos = pos; state = if at_end then done else footer };
      }

  -- `switch r.state`
  unfoldable pub read_in : JsonState → Reads JsonReader
  unfolding read_header read_data read_footer
  read_in header r len = read_header r len
  read_in data_content r len = read_data r len
  read_in footer r len = read_footer r len
  read_in done r len = record { bytes = []; eof = true; after = r }

  -- `Read` of `StreamingJSONReader`
  unfoldable pub read_json : Reads JsonReader
  unfolding read_in
  read_json r zero = record { bytes = []; eof = false; after = r }
  read_json r (suc len) = read_in r.state r (suc len)
