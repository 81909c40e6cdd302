-- ===== src/Metric/LineExamples.antt =====
-- The theorems on single lines and on replacements, at a gauge, a counter without a value and a line.
use access_log_exporter.Prelude.{
  arith, ◌≡◌, refl, true, false, List, [], ◌∷◌, none, some, Bytes, codes, inl, inr, ok, err, str_eq,
}
use access_log_exporter.Config.Types.{Upstream, MetricConfig, Replacement}
use access_log_exporter.Metric.Types.{
  Metric, Vec, Kind, counter_vec, gauge_vec, inc, label_index_out_of_range,
  value_index_out_of_range,
}
use access_log_exporter.Metric.New.{label_count, has_upstream_label}
use access_log_exporter.Metric.Replace.{value_replacements}
use access_log_exporter.Metric.Set.{apply_math_transformations}
use access_log_exporter.Metric.Parse.{
  parse, validate_and_extract_value, extract_value, extract_at, replace_value,
}
use access_log_exporter.Metric.Labels.{parse_user_agent}
use access_log_exporter.Metric.Valid.{IsValid}
use access_log_exporter.Metric.History.{observed}
use access_log_exporter.Metric.LabelValues.{label_value, label_values}
use access_log_exporter.Metric.Lines.{
  with_upstream_slot, sample, parse_label_error, parse_increments, parse_records,
}
use access_log_exporter.Metric.Skipped.{parse_skips, parse_value_out_of_range}
use access_log_exporter.Strings.Space.{trim_space}
use access_log_exporter.Metric.Examples.{digit_floats, upstream_config}

abbrev no_upstream : Upstream
no_upstream = record { excludes = []; addr_line_index = 0; enabled = false; label = false }

abbrev gauge_config : MetricConfig
gauge_config = record upstream_config { type = codes "gauge"; upstream = no_upstream }

abbrev vec_of_host : Kind → Vec
vec_of_host kind = record {
  kind = kind;
  name = codes "time";
  help = [];
  const_labels = [];
  buckets = [];
  label_keys = codes "host" ∷ [];
}

abbrev gauge_metric : Metric
gauge_metric = record {
  metric = some (vec_of_host gauge_vec);
  ua = none;
  labels_pool = [];
  label_count = 1;
  cfg = gauge_config;
}

abbrev gauge_valid : IsValid gauge_metric
unfolding label_count has_upstream_label
gauge_valid = record {
  vec = vec_of_host gauge_vec;
  built = refl;
  counted = refl;
  keyed = refl;
  pooled = tt;
  parses = (inl refl, tt);
  increments = inl (λ e. cc);
}

abbrev pub counting_metric : Metric
counting_metric = record {
  metric = some (vec_of_host counter_vec);
  ua = none;
  labels_pool = [];
  label_count = 1;
  cfg = record upstream_config { value_index = none; upstream = no_upstream };
}

abbrev pub counting_valid : IsValid counting_metric
unfolding label_count has_upstream_label
counting_valid = record {
  vec = vec_of_host counter_vec;
  built = refl;
  counted = refl;
  keyed = refl;
  pooled = tt;
  parses = (inl refl, tt);
  increments = inr refl;
}

abbrev pub line_of_two : List Bytes
line_of_two = codes "h" ∷ codes "7" ∷ []

-- the same gauge, with its label in a field that the line does not have
abbrev far_metric : Metric
far_metric = record gauge_metric {
  cfg = record gauge_config {
    labels =
        record { name = codes "host"; replacements = []; line_index = 4; user_agent = false } ∷ [];
  };
}

abbrev far_valid : IsValid far_metric
unfolding label_count has_upstream_label
far_valid = record {
  vec = vec_of_host gauge_vec;
  built = refl;
  counted = refl;
  keyed = refl;
  pooled = tt;
  parses = (inl refl, tt);
  increments = inl (λ e. cc);
}

parse_records_example :
    observed (parse digit_floats gauge_metric 0 line_of_two)
    ≡ sample gauge_metric
        (codes "7")
        gauge_vec
        (with_upstream_slot gauge_metric (codes "h" ∷ []))
        (apply_math_transformations digit_floats gauge_config.math b'7')
unfolding validate_and_extract_value extract_value extract_at replace_value label_values label_value
    parse_user_agent value_replacements trim_space str_eq
parse_records_example =
    parse_records digit_floats gauge_metric gauge_valid 0 line_of_two (codes "7") (codes "h" ∷ [])
      b'7' (λ e. cc) refl refl refl (λ e. cc) refl

parse_increments_example :
    observed (parse digit_floats counting_metric 0 line_of_two)
    ≡ (inc (with_upstream_slot counting_metric (codes "h" ∷ [])) ∷ [], ok tt)
unfolding label_values label_value parse_user_agent value_replacements
parse_increments_example =
    parse_increments digit_floats counting_metric counting_valid 0 line_of_two (codes "h" ∷ []) refl
      (λ e. cc) refl

parse_label_error_example :
    observed (parse digit_floats far_metric 0 line_of_two)
    ≡ ([], err (label_index_out_of_range (codes "host") 2))
unfolding validate_and_extract_value extract_value extract_at replace_value label_values label_value
    str_eq
parse_label_error_example =
    parse_label_error digit_floats far_metric far_valid 0 line_of_two (codes "7")
      (label_index_out_of_range (codes "host") 2) refl refl

parse_skips_example :
    parse digit_floats gauge_metric 0 (codes "h" ∷ codes "-" ∷ [])
    ≡ record { after = gauge_metric; calls = []; result = ok tt }
parse_skips_example =
    parse_skips digit_floats gauge_metric 0 (codes "h" ∷ codes "-" ∷ []) (inr (1, refl, inr refl))

test_out_of_range :
    parse digit_floats gauge_metric 0 (codes "h" ∷ [])
    ≡ record { after = gauge_metric; calls = []; result = err (value_index_out_of_range 1 1) }
test_out_of_range =
    parse_value_out_of_range digit_floats gauge_metric 0 (codes "h" ∷ []) 1 (λ e. cc) refl
      (omega arith)

abbrev two_replacements : List Replacement
two_replacements =
    record {
      string = some (codes "x");
      regexp = none;
      string_replacer = some (record { old = codes "x"; new = codes "y" });
      replacement = codes "y";
    }
    ∷ record {
      string = none;
      regexp = some (record {
        match_string = λ s. true;
        replace_all_string = λ s r. r;
        replace_all_literal_string = λ s r. r;
      });
      string_replacer = none;
      replacement = codes "z";
    }
    ∷ []
