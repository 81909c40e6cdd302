-- ===== src/LoadGenerator/FormBody.antt =====
-- What StreamingFormReader of docs/demo/load-generator/main.go promises.
use access_log_exporter.Prelude.{
  arith, ℕ, zero, suc, ◌+◌, ◌-◌, ◌<◌, ◌≡◌, refl, ap, sym, subst, inl, inr, true, [], Bytes, length,
  Bool-cases, leb,
}
use access_log_exporter.LoadGenerator.Reader.{Promised, Delivers}
use access_log_exporter.LoadGenerator.Random.{min, new_random_reader, read_random}
use access_log_exporter.LoadGenerator.Randomly.{
  IsBuffered, read_random-Delivers, new_random_reader-IsBuffered,
}
use access_log_exporter.LoadGenerator.JsonBody.{length-piece}
use access_log_exporter.LoadGenerator.Form.{
  FormState, prefix, first_data, separator, second_data, done, FormReader, form_reader, read_prefix,
  read_first, read_separator, read_second, read_in, read_form,
}

-- the bytes that are left of the texts
abbrev prefix_left : FormReader → ℕ
prefix_left r = length r.prefix_buf - r.prefix_pos

abbrev sep_left : FormReader → ℕ
sep_left r = length r.sep_buf - r.sep_pos

abbrev left_in : FormState → FormReader → ℕ
left_in prefix r = prefix_left r + (r.field_size + (sep_left r + r.field_size))
left_in first_data r = r.reader.remaining + (sep_left r + r.field_size)
left_in separator r = sep_left r + r.field_size
left_in second_data r = r.reader.remaining
left_in done r = 0

pub left : FormReader → ℕ
left r = left_in r.state r

-- the end of the first field is a call that brings nothing
abbrev stalls_in : FormState → ℕ
stalls_in prefix = 1
stalls_in first_data = 1
stalls_in _ = 0

pub stalls : FormReader → ℕ
stalls r = stalls_in r.state

abbrev Holds : FormState → FormReader → Type 0
Holds prefix r = (0 < prefix_left r) × (0 < sep_left r)
Holds first_data r = IsBuffered r.reader × (0 < sep_left r)
Holds separator r = 0 < sep_left r
Holds second_data r = IsBuffered r.reader
Holds done r = Unit

pub record IsForm (r : FormReader) : Type 0 where
  pub holds : Holds r.state r

module _ (random : ℕ → ℕ → ℕ) (r : FormReader) (len : ℕ) where
  read_prefix-Promised :
      r.state ≡ prefix
      → 0 < prefix_left r
      → 0 < sep_left r
      → Promised IsForm left stalls r len (read_prefix random r len)
  unfolding read_prefix left stalls new_random_reader
  read_prefix-Promised e h f =
      let l : left r ≡ left_in prefix r = ap (λ st. left_in st r) e in
      let s : stalls r ≡ 1 = ap stalls_in e in
      let p = length-piece r.prefix_buf r.prefix_pos len in
      elim (Bool-cases (leb (length r.prefix_buf) (r.prefix_pos + min len (prefix_left r)))) [
        | inl q ↦ rw q (record {
          keeps = record { holds = (new_random_reader-IsBuffered r.field_size, f) };
          fits = ground (arith, p);
          conserves = ground (arith, p, l, q);
          ends = λ x. cc;
          progress = λ x y. ground (arith, p, l, s, q);
        })
        | inr q ↦ rw q (record {
          keeps = record { holds = (ground (arith, q), f) };
          fits = ground (arith, p);
          conserves = ground (arith, p, l, q);
          ends = λ x. cc;
          progress = λ x y. ground (arith, p, l, s, q);
        })
      ]

  read_first-Promised :
      r.state ≡ first_data
      → IsBuffered r.reader
      → 0 < sep_left r
      → Promised IsForm left stalls r len (read_first random r len)
  unfolding read_first left stalls
  read_first-Promised e b f =
      let l : left r ≡ left_in first_data r = ap (λ st. left_in st r) e in
      let s : stalls r ≡ 1 = ap stalls_in e in
      let p = read_random-Delivers random r.reader len b in
      elim (Bool-cases (read_random random r.reader len).eof) [
        | inl q ↦ rw q (record {
          keeps = record { holds = f };
          fits = p.fits;
          conserves = omega (arith, p.conserves, p.ends q, l);
          ends = λ x. cc;
          progress = λ x y. omega (arith, p.conserves, p.ends q, l, s);
        })
        | inr q ↦ rw q (record {
          keeps = record { holds = (p.keeps, f) };
          fits = p.fits;
          conserves = omega (arith, p.conserves, l);
          ends = λ x. cc;
          progress = λ x y. omega (arith, p.progress x q, l, s);
        })
      ]

  read_separator-Promised :
      r.state ≡ separator
      → 0 < sep_left r
      → Promised IsForm left stalls r len (read_separator random r len)
  unfolding read_separator left stalls new_random_reader
  read_separator-Promised e f =
      let l : left r ≡ left_in separator r = ap (λ st. left_in st r) e in
      let s : stalls r ≡ 0 = ap stalls_in e in
      let p = length-piece r.sep_buf r.sep_pos len in
      elim (Bool-cases (leb (length r.sep_buf) (r.sep_pos + min len (sep_left r)))) [
        | inl q ↦ rw q (record {
          keeps = record { holds = new_random_reader-IsBuffered r.field_size };
          fits = ground (arith, p);
          conserves = ground (arith, p, l, q);
          ends = λ x. cc;
          progress = λ x y. ground (arith, p, l, s, q);
        })
        | inr q ↦ rw q (record {
          keeps = record { holds = ground (arith, q) };
          fits = ground (arith, p);
          conserves = ground (arith, p, l, q);
          ends = λ x. cc;
          progress = λ x y. ground (arith, p, l, s, q);
        })
      ]

  read_second-Promised :
      r.state ≡ second_data
      → IsBuffered r.reader
      → Promised IsForm left stalls r len (read_second random r len)
  unfolding read_second left stalls
  read_second-Promised e b =
      let l : left r ≡ left_in second_data r = ap (λ st. left_in st r) e in
      let s : stalls r ≡ 0 = ap stalls_in e in
      let p = read_random-Delivers random r.reader len b in
      elim (Bool-cases (read_random random r.reader len).eof) [
        | inl q ↦ rw q (record {
          keeps = record { holds = tt };
          fits = p.fits;
          conserves = omega (arith, p.conserves, p.ends q, l);
          ends = λ x. refl;
          progress = λ x y. cc;
        })
        | inr q ↦ rw q (record {
          keeps = record { holds = p.keeps };
          fits = p.fits;
          conserves = omega (arith, p.conserves, l);
          ends = λ x. cc;
          progress = λ x y. omega (arith, p.progress x q, l, s);
        })
      ]

  read_done-Promised :
      r.state ≡ done
      → Promised IsForm left stalls r len (record { bytes = []; eof = true; after = r })
  unfolding left stalls
  read_done-Promised e =
      let l : left r ≡ 0 = ap (λ st. left_in st r) e in
      record {
        keeps = record { holds = subst (λ st. Holds st r) (sym e) tt };
        fits = omega arith;
        conserves = omega arith;
        ends = λ x. l;
        progress = λ x y. cc;
      }

  read_in-Promised :
      (state : FormState)
      → r.state ≡ state
      → Holds state r
      → Promised IsForm left stalls r len (read_in random state r len)
  unfolding read_in
  read_in-Promised prefix e (h, f) = read_prefix-Promised e h f
  read_in-Promised first_data e (b, f) = read_first-Promised e b f
  read_in-Promised separator e f = read_separator-Promised e f
  read_in-Promised second_data e b = read_second-Promised e b
  read_in-Promised done e h = read_done-Promised e

pub read_form-Delivers : (random : ℕ → ℕ → ℕ) → Delivers IsForm left stalls (read_form random)
unfolding read_form
read_form-Delivers random r zero f = record {
  keeps = f;
  fits = omega arith;
  conserves = omega arith;
  ends = λ x. cc;
  progress = λ x y. absurd (omega arith);
}
read_form-Delivers random r (suc len) f = read_in-Promised random r (suc len) r.state refl f.holds

-- a new reader has `ActualSize` bytes
pub form_reader-IsForm :
    (separator_text : Bytes) (size : ℕ)
    → 0 < length separator_text
    → IsForm (form_reader separator_text size)
      × (left (form_reader separator_text size) ≡ (form_reader separator_text size).actual_size)
      × (stalls (form_reader separator_text size) ≡ 1)
unfolding form_reader left stalls
form_reader-IsForm separator_text size h =
    (record { holds = (omega arith, omega arith) }, omega arith, refl)
