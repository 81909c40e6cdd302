-- ===== src/LoadGenerator/JsonBody.antt =====
-- What StreamingJSONReader of docs/demo/load-generator/main.go promises.
use access_log_exporter.Prelude.{
  arith, ℕ, zero, suc, ◌+◌, ◌-◌, ◌<◌, ◌≡◌, refl, ap, sym, subst, inl, inr, true, [], Bytes, length,
  drop, Bool-cases, leb,
}
use access_log_exporter.LoadGenerator.Reader.{Promised, Delivers}
use access_log_exporter.LoadGenerator.Random.{min, new_random_reader, read_random}
use access_log_exporter.LoadGenerator.Randomly.{
  length-take, length-drop, IsBuffered, read_random-Delivers, new_random_reader-IsBuffered,
}
use access_log_exporter.LoadGenerator.Json.{
  JsonState, header, data_content, footer, done, JsonReader, piece, read_header, read_data,
  read_footer, read_in, read_json, json_reader, json_size,
}

pub length-piece :
    (text : Bytes) (pos len : ℕ) → length (piece text pos len) ≡ min len (length text - pos)
length-piece text pos len =
    length-take (min len (length text - pos)) (drop pos text) (ground (arith, length-drop pos text))

-- the bytes that are left of the texts
abbrev header_left : JsonReader → ℕ
header_left r = length r.header_buf - r.header_pos

abbrev footer_left : JsonReader → ℕ
footer_left r = length r.footer_buf - r.footer_pos

abbrev left_in : JsonState → JsonReader → ℕ
left_in header r = header_left r + (r.data_reader.remaining + footer_left r)
left_in data_content r = r.data_reader.remaining + footer_left r
left_in footer r = footer_left r
left_in done r = 0

pub left : JsonReader → ℕ
left r = left_in r.state r

-- the end of the data is a call that brings nothing
abbrev stalls_in : JsonState → ℕ
stalls_in header = 1
stalls_in data_content = 1
stalls_in footer = 0
stalls_in done = 0

pub stalls : JsonReader → ℕ
stalls r = stalls_in r.state

abbrev Holds : JsonState → JsonReader → Type 0
Holds header r = (0 < header_left r) × (0 < footer_left r)
Holds data_content r = 0 < footer_left r
Holds footer r = 0 < footer_left r
Holds done r = Unit

pub record IsJson (r : JsonReader) : Type 0 where
  pub buffered : IsBuffered r.data_reader
  pub holds : Holds r.state r

module _ (random : ℕ → ℕ → ℕ) (r : JsonReader) (len : ℕ) (buffered : IsBuffered r.data_reader) where
  read_header-Promised :
      r.state ≡ header
      → 0 < header_left r
      → 0 < footer_left r
      → Promised IsJson left stalls r len (read_header random r len)
  unfolding read_header left stalls
  read_header-Promised e h f =
      let l : left r ≡ left_in header r = ap (λ st. left_in st r) e in
      let s : stalls r ≡ 1 = ap stalls_in e in
      let p = length-piece r.header_buf r.header_pos len in
      elim (Bool-cases (leb (length r.header_buf) (r.header_pos + min len (header_left r)))) [
        | inl q ↦ rw q (record {
          keeps = record { buffered = buffered; holds = f };
          fits = ground (arith, p);
          conserves = ground (arith, p, l, q);
          ends = λ x. cc;
          progress = λ x y. ground (arith, p, l, s, q);
        })
        | inr q ↦ rw q (record {
          keeps = record { buffered = buffered; holds = (ground (arith, q), f) };
          fits = ground (arith, p);
          conserves = ground (arith, p, l, q);
          ends = λ x. cc;
          progress = λ x y. ground (arith, p, l, s, q);
        })
      ]

  read_data-Promised :
      r.state ≡ data_content
      → 0 < footer_left r
      → Promised IsJson left stalls r len (read_data random r len)
  unfolding read_data left stalls
  read_data-Promised e f =
      let l : left r ≡ left_in data_content r = ap (λ st. left_in st r) e in
      let s : stalls r ≡ 1 = ap stalls_in e in
      let p = read_random-Delivers random r.data_reader len buffered in
      elim (Bool-cases (read_random random r.data_reader len).eof) [
        | inl q ↦ rw q (record {
          keeps = record { buffered = p.keeps; holds = f };
          fits = p.fits;
          conserves = omega (arith, p.conserves, p.ends q, l);
          ends = λ x. cc;
          progress = λ x y. omega (arith, p.conserves, p.ends q, l, s);
        })
        | inr q ↦ rw q (record {
          keeps = record { buffered = p.keeps; holds = f };
          fits = p.fits;
          conserves = omega (arith, p.conserves, l);
          ends = λ x. cc;
          progress = λ x y. omega (arith, p.progress x q, l, s);
        })
      ]

  read_footer-Promised :
      r.state ≡ footer
      → 0 < footer_left r
      → Promised IsJson left stalls r len (read_footer random r len)
  unfolding read_footer left stalls
  read_footer-Promised e f =
      let l : left r ≡ left_in footer r = ap (λ st. left_in st r) e in
      let s : stalls r ≡ 0 = ap stalls_in e in
      let p = length-piece r.footer_buf r.footer_pos len in
      elim (Bool-cases (leb (length r.footer_buf) (r.footer_pos + min len (footer_left r)))) [
        | inl q ↦ rw q (record {
          keeps = record { buffered = buffered; holds = tt };
          fits = ground (arith, p);
          conserves = ground (arith, p, l, q);
          ends = λ x. refl;
          progress = λ x y. cc;
        })
        | inr q ↦ rw q (record {
          keeps = record { buffered = buffered; holds = ground (arith, q) };
          fits = ground (arith, p);
          conserves = ground (arith, p, l, q);
          ends = λ x. cc;
          progress = λ x y. ground (arith, p, l, s, q);
        })
      ]

  read_done-Promised :
      r.state ≡ done
      → Promised IsJson left stalls r len (record { bytes = []; eof = true; after = r })
  unfolding left stalls
  read_done-Promised e =
      let l : left r ≡ 0 = ap (λ st. left_in st r) e in
      record {
        keeps = record { buffered = buffered; holds = subst (λ st. Holds st r) (sym e) tt };
        fits = omega arith;
        conserves = omega arith;
        ends = λ x. l;
        progress = λ x y. cc;
      }

  read_in-Promised :
      (state : JsonState)
      → r.state ≡ state
      → Holds state r
      → Promised IsJson left stalls r len (read_in random state r len)
  unfolding read_in
  read_in-Promised header e (h, f) = read_header-Promised e h f
  read_in-Promised data_content e f = read_data-Promised e f
  read_in-Promised footer e f = read_footer-Promised e f
  read_in-Promised done e h = read_done-Promised e

pub read_json-Delivers : (random : ℕ → ℕ → ℕ) → Delivers IsJson left stalls (read_json random)
unfolding read_json
read_json-Delivers random r zero j = record {
  keeps = j;
  fits = omega arith;
  conserves = omega arith;
  ends = λ x. cc;
  progress = λ x y. absurd (omega arith);
}
read_json-Delivers random r (suc len) j =
    read_in-Promised random r (suc len) j.buffered r.state refl j.holds

-- a new reader has `ActualSize` bytes
pub json_reader-IsJson :
    (header_text footer_text : Bytes) (size : ℕ)
    → 0 < length header_text
    → 0 < length footer_text
    → IsJson (json_reader header_text footer_text size)
      × (left (json_reader header_text footer_text size)
          ≡ json_size (json_reader header_text footer_text size))
      × (stalls (json_reader header_text footer_text size) ≡ 1)
unfolding json_reader json_size left stalls new_random_reader
json_reader-IsJson header_text footer_text size h f = (
  record { buffered = new_random_reader-IsBuffered _; holds = (omega arith, omega arith) },
  omega arith,
  refl,
)
