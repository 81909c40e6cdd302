-- ===== src/Metric/UpstreamExamples.antt =====
-- The theorem on lines with several values, at a line with an excluded upstream.
use mathlib.Core.List.{cons-ne-nil}
use access_log_exporter.Prelude.{
  ◌≡◌, refl, List, [], ◌∷◌, Bytes, codes, inr, ok, str_eq, str_ne, contains_str,
}
use access_log_exporter.Float.{is_negative}
use access_log_exporter.Strings.Space.{trim_space}
use access_log_exporter.Strings.Split.{split}
use access_log_exporter.Metric.Types.{Call, counter_vec}
use access_log_exporter.Metric.Set.{apply_math_transformations}
use access_log_exporter.Metric.Replace.{value_replacements}
use access_log_exporter.Metric.Upstream.{
  parse_upstreams, get_upstream_for_value, is_upstream_excluded,
}
use access_log_exporter.Metric.Labels.{parse_user_agent}
use access_log_exporter.Metric.LabelValues.{label_value, label_values}
use access_log_exporter.Metric.Parse.{
  parse, validate_and_extract_value, extract_value, extract_at, replace_value,
}
use access_log_exporter.Metric.History.{observed}
use access_log_exporter.Metric.Values.{elements}
use access_log_exporter.Metric.PerUpstream.{Records, at_end, dashed, left_out, number}
use access_log_exporter.Metric.Recorded.{call_of}
use access_log_exporter.Metric.UpstreamLines.{parse-Records}
use access_log_exporter.Metric.Examples.{
  digit_floats, upstream_metric, upstream_valid, line_of_three,
}

abbrev three_upstreams : List Bytes
three_upstreams = codes "a" ∷ codes "b" ∷ codes "c" ∷ []

abbrev two_calls : List Call
two_calls =
    call_of counter_vec (codes "h" ∷ codes "a" ∷ []) b'1'
    ∷ call_of counter_vec (codes "h" ∷ codes "c" ∷ []) b'4'
    ∷ []

line_Records :
    Records digit_floats upstream_metric upstream_valid three_upstreams
      (codes "h" ∷ [])
      0
      (elements (split (codes "1, 2, -, 4") b','))
      two_calls
unfolding split trim_space get_upstream_for_value is_upstream_excluded contains_str str_eq
    apply_math_transformations is_negative
line_Records =
    number 0 (codes "1") (codes "a") b'1' _ _ (str_ne _ _ refl) refl refl (cons-ne-nil _ _) refl
      (inr refl)
      (left_out 1 (codes " 2") (codes "b") _ _ (str_ne _ _ refl) refl refl (
        dashed 2 (codes " -") _ _ refl (
          number 3 (codes " 4") (codes "c") b'4' _ _ (str_ne _ _ refl) refl refl (cons-ne-nil _ _)
            refl (inr refl) (at_end 4))))

parse-Records_example :
    observed (parse digit_floats upstream_metric 0 line_of_three) ≡ (two_calls, ok tt)
unfolding validate_and_extract_value extract_value extract_at replace_value label_values label_value
    parse_user_agent value_replacements parse_upstreams split trim_space str_eq
parse-Records_example =
    parse-Records digit_floats upstream_metric upstream_valid 0 line_of_three (codes "1, 2, -, 4")
      (codes "h" ∷ []) three_upstreams two_calls (λ e. cc) refl refl refl (λ e. cc) refl refl
      line_Records
