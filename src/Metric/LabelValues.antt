-- ===== src/Metric/LabelValues.antt =====
-- The values that the loop over the labels writes, and the error that stops it.
use access_log_exporter.Prelude.{
  ℕ, suc, ◌+◌, ◌<◌, ◌≤◌, ◌≡◌, refl, sym, ap, ◌∙◌, List, [], ◌∷◌, none, some, Bytes, length,
  length-set, set, leb, arith, if◌then◌else◌, inl, inr, Result, Result-cases, index,
}
use access_log_exporter.Prelude
use access_log_exporter.Config.Types.{Label}
use access_log_exporter.Metric.Types.{Error, label_index_out_of_range, Metric}
use access_log_exporter.Metric.Act.{Frame, ok, err, set_label, then_ok, then_err}
use access_log_exporter.Metric.Replace.{value_replacements}
use access_log_exporter.Metric.Labels.{process_label, process_labels_from, parse_user_agent}
use access_log_exporter.Metric.Writes.{write_from}

-- the value of one label: the field of the line, its user agent if asked for, its replacements
unfoldable pub label_value : Metric → List Bytes → Label → Result Error Bytes
label_value m line label =
    if leb (length line) label.line_index
    then Result.err (label_index_out_of_range label.name (length line))
    else Prelude.◌>>=◌ (index line label.line_index) (λ field.
      Prelude.◌>>=◌ (parse_user_agent m label field) (value_replacements label.replacements))

unfoldable pub label_values : Metric → List Bytes → List Label → Result Error (List Bytes)
label_values m line [] = Result.ok []
label_values m line (label ∷ labels) =
    Prelude.◌>>=◌ (label_value m line label)
      (λ value. Prelude.◌>>=◌ (label_values m line labels) (λ values. Result.ok (value ∷ values)))

module _ (m : Metric) (line : List Bytes) where
  process_label_ok :
      (i : ℕ) (label : Label) (value : Bytes) (s : Frame)
      → label_value m line label ≡ Result.ok value
      → process_label m line i label s ≡ set_label i value s
  unfolding process_label label_value
  process_label_ok i label value s h = ground arith

  process_label_err :
      (i : ℕ) (label : Label) (e : Error) (s : Frame)
      → label_value m line label ≡ Result.err e
      → process_label m line i label s ≡ err e s
  unfolding process_label label_value
  process_label_err i label e s h = ground arith

  set_label_ok :
      (i : ℕ) (value : Bytes) (s : Frame)
      → i < length s.labels
      → set_label i value s ≡ ok tt (record s { labels = set s.labels i value })
  set_label_ok i value s h = ground arith

  -- The loop writes the values in the order of the labels.
  pub process_labels_ok :
      (labels : List Label) (i : ℕ) (values : List Bytes) (s : Frame)
      → label_values m line labels ≡ Result.ok values
      → i + length labels ≤ length s.labels
      → process_labels_from m line i labels s
        ≡ ok tt (record s { labels = write_from i values s.labels })
  unfolding process_labels_from label_values
  process_labels_ok [] i values s h fits = ground arith
  process_labels_ok (label ∷ labels) i values s h fits =
      let (value, h', here) = Prelude.>>=-ok _ (label_value m line label) h in
      let (rest, e, later) = Prelude.>>=-ok _ (label_values m line labels) h' in
      let s' : Frame = record s { labels = set s.labels i value } in
      let ih =
        process_labels_ok labels (i + 1) rest s' later
          (omega (arith, length-set s.labels i value)) in
      then_ok (process_label m line i label) _ s s'
        (process_label_ok i label value s here ∙ set_label_ok i value s (omega arith))
      ∙ ih
      ∙ ap (λ vs. ok tt (record s { labels = write_from i vs s.labels }))
          (Prelude.ok-injective (value ∷ rest) values e)

  pub process_labels_err :
      (labels : List Label) (i : ℕ) (e : Error) (s : Frame)
      → label_values m line labels ≡ Result.err e
      → i + length labels ≤ length s.labels
      → (written : List Bytes) × (process_labels_from m line i labels s
          ≡ err e (record s { labels = written }))
  unfolding process_labels_from label_values
  process_labels_err [] i e s h fits = absurd (ground arith)
  process_labels_err (label ∷ labels) i e s h fits =
      elim (Result-cases (label_value m line label)) [
        | inl (value, here) ↦
            let s' : Frame = record s { labels = set s.labels i value } in
            let (written, ih) =
              process_labels_err labels (i + 1) e s' (ground arith)
                (omega (arith, length-set s.labels i value)) in
            (
              written,
              then_ok (process_label m line i label) _ s s'
                    (process_label_ok i label value s here ∙ set_label_ok i value s (omega arith))
                  ∙ ih,
            )
        | inr (inl (e', here)) ↦ (
          s.labels,
          then_err (process_label m line i label) _ s s
              (process_label_err i label e s (ground arith)),
        )
        | inr (inr (p, here)) ↦ absurd (ground arith)
      ]

pub length-label_values :
    (m : Metric) (line : List Bytes) (labels : List Label) (values : List Bytes)
    → label_values m line labels ≡ Result.ok values
    → length values ≡ length labels
unfolding label_values
length-label_values m line [] values h = ap length (sym (Prelude.ok-injective [] values h))
length-label_values m line (label ∷ labels) values h =
    let (value, h', here) = Prelude.>>=-ok _ (label_value m line label) h in
    let (rest, e, later) = Prelude.>>=-ok _ (label_values m line labels) h' in
    ap length (sym (Prelude.ok-injective (value ∷ rest) values e))
    ∙ ap suc (length-label_values m line labels rest later)
