-- ===== src/LoadGenerator/Form.antt =====
-- StreamingFormReader of docs/demo/load-generator/main.go; `number` is what `rand.Intn` gives.
use access_log_exporter.Prelude.{
  ℕ, zero, suc, ◌+◌, ◌-◌, ◌/◌, Bool, true, false, [], ◌++◌, Bytes, codes, length, ltb, leb,
  if◌then◌else◌,
}
use access_log_exporter.Nginx.Decimal.{decimal}
use access_log_exporter.LoadGenerator.Reader.{Reads}
use access_log_exporter.LoadGenerator.Random.{min, RandomReader, new_random_reader, read_random}
use access_log_exporter.LoadGenerator.Json.{piece}

-- the cases of `state`
pub data FormState : Type 0 where
  prefix first_data separator second_data done : FormState

-- `StreamingFormReader`; its `reader` is a pointer, but `Read` sets it before it is used: until then
-- it stands for nothing and is an empty reader
pub record FormReader : Type 0 where
  pub reader : RandomReader
  pub sep_buf : Bytes
  pub prefix_buf : Bytes
  pub state : FormState
  pub field_size : ℕ
  pub sep_pos : ℕ
  pub prefix_pos : ℕ
  pub total_size : ℕ
  pub actual_size : ℕ

-- `generateStreamingFormData`, behind the text of the separator
unfoldable pub form_reader : Bytes → ℕ → FormReader
form_reader separator_text target_size =
    let overhead : ℕ = length (codes "field1=") + length separator_text in
    let rest : ℕ = target_size - overhead in
    let remaining_size : ℕ = if ltb rest 2 then 2 else rest in
    let size : ℕ = remaining_size / 2 in
    record {
      reader = new_random_reader 0;
      sep_buf = separator_text;
      prefix_buf = codes "field1=";
      state = prefix;
      field_size = size;
      sep_pos = 0;
      prefix_pos = 0;
      total_size = target_size;
      actual_size = length (codes "field1=") + size + length separator_text + size;
    }

unfoldable pub generate_streaming_form_data : ℕ → ℕ → FormReader
unfolding form_reader
generate_streaming_form_data number target_size =
    form_reader (codes "&field2=" ++ (decimal number ++ codes "&field3=")) target_size

module _ (random : ℕ → ℕ → ℕ) where
  unfoldable pub read_prefix : Reads FormReader
  read_prefix r len =
      let pos : ℕ = r.prefix_pos + min len (length r.prefix_buf - r.prefix_pos) in
      let at_end : Bool = leb (length r.prefix_buf) pos in
      record {
        bytes = piece r.prefix_buf r.prefix_pos len;
        eof = false;
        after = record r {
          prefix_pos = pos;
          reader = if at_end then new_random_reader r.field_size else r.reader;
          state = if at_end then first_data else prefix;
        };
      }

  unfoldable pub read_first : Reads FormReader
  read_first r len =
      let chunk = read_random random r.reader len in
      record {
        bytes = chunk.bytes;
        eof = false;
        after = record r {
          reader = chunk.after;
          state = if chunk.eof then separator else first_data;
        };
      }

  unfoldable pub read_separator : Reads FormReader
  read_separator r len =
      let pos : ℕ = r.sep_pos + min len (length r.sep_buf - r.sep_pos) in
      let at_end : Bool = leb (length r.sep_buf) pos in
      record {
        bytes = piece r.sep_buf r.sep_pos len;
        eof = false;
        after = record r {
          sep_pos = pos;
          reader = if at_end then new_random_reader r.field_size else r.reader;
          state = if at_end then second_data else separator;
        };
      }

  unfoldable pub read_second : Reads FormReader
  read_second r len =
      let chunk = read_random random r.reader len in
      record {
        bytes = chunk.bytes;
        eof = chunk.eof;
        after = record r { reader = chunk.after; state = if chunk.eof then done else second_data };
      }

  -- `switch r.state`
  unfoldable pub read_in : FormState → Reads FormReader
  unfolding read_prefix read_first read_separator read_second
  read_in prefix r len = read_prefix r len
  read_in first_data r len = read_first r len
  read_in separator r len = read_separator r len
  read_in second_data r len = read_second r len
  read_in done r len = record { bytes = []; eof = true; after = r }

  -- `Read` of `StreamingFormReader`
  unfoldable pub read_form : Reads FormReader
  unfolding read_in
  read_form r zero = record { bytes = []; eof = false; after = r }
  read_form r (suc len) = read_in r.state r (suc len)
