-- ===== src/Metric/Examples.antt =====
-- A metric on concrete lines: tests, and the theorems of the other files at these inputs.
use access_log_exporter.Prelude.{
  ℕ, ◌≡◌, refl, true, false, List, [], ◌∷◌, Option, none, some, Bytes, codes, Result, ok, err, All,
  Returns, map, inl, ◌⊎◌,
}
use access_log_exporter.Float.{FloatOps}
use access_log_exporter.Config.Types.{MetricConfig}
use access_log_exporter.Metric.Types.{Error, Metric, Call, add, counter_vec}
use access_log_exporter.Useragent
use access_log_exporter.Metric.New.{new, label_count, has_upstream_label}
use access_log_exporter.Metric.Valid.{IsValid, HasDecoded, Fits}
use access_log_exporter.Metric.SafeParse.{parse-Fits, parse-Returns, parse-IsValid}
use access_log_exporter.Metric.History.{run, parse_alone, run-alone}
use access_log_exporter.Metric.Excluded.{IsIncluded, labels_of}
use access_log_exporter.Metric.Included.{parse-IsIncluded}
use access_log_exporter.Metric.Values.{process_each, elements, process_comma-each}
use access_log_exporter.Metric.Built.{IsAccepted, IsBuilt}
use access_log_exporter.Metric.Refused.{Rejects, new_total}
use access_log_exporter.Metric.Parse.{
  Parsed, parse, release, handle_line, validate_and_extract_value, handle_metric_value,
}
use access_log_exporter.Metric.Labels.{
  return_labels_to_pool, get_labels_from_pool, process_labels_from, process_label,
}
use access_log_exporter.Metric.Upstream.{
  set_metric_with_upstream, process_comma_delimited_values, process_values, process_element,
  process_value_with_upstream, get_upstream_for_value, extract_next_value, parse_upstreams,
  is_upstream_excluded,
}
use access_log_exporter.Metric.Set.{set_metric, set_metric_value, apply_math_transformations}
use access_log_exporter.Float.{is_negative}
use access_log_exporter.Strings.Space.{trim_space}
use access_log_exporter.Strings.Split.{split}
use access_log_exporter.Strings.Search.{cut}
use access_log_exporter.Prelude.{str_eq, contains_str}
use access_log_exporter.Metric.Replace.{value_replacements}

-- Floats of one digit, in place of the real ones: "-1" reads as -1.0, a digit as itself.
abbrev pub digit_floats : FloatOps
digit_floats = record {
  parse_float =
      λ s. elim s [ [] ↦ none | c ∷ r ↦ elim r [ [] ↦ some c | _ ∷ _ ↦ some 0xbff0000000000000 ] ];
  format_float = λ x. x ∷ [];
  mul = λ x y. x;
  div = λ x y. x;
}

abbrev pub upstream_config : MetricConfig
upstream_config = record {
  const_labels = [];
  value_index = some 1;
  name = codes "time";
  type = codes "counter";
  help = [];
  buckets = [];
  labels =
      record { name = codes "host"; replacements = []; line_index = 0; user_agent = false } ∷ [];
  replacements = none;
  upstream = record {
    excludes = codes "b" ∷ [];
    addr_line_index = 2;
    enabled = true;
    label = true;
  };
  math = record { enabled = false; mul = 0; div = 0 };
}

abbrev pub line_of_three : List Bytes
line_of_three = codes "h" ∷ codes "1, 2, -, 4" ∷ codes "a, b, c" ∷ []

abbrev result_of : Result Error Metric → (Metric → Parsed) → Option Parsed
result_of (ok m) f = some (f m)
result_of _ f = none

abbrev calls_of : Option Parsed → List Call
calls_of none = []
calls_of (some p) = p.calls

running : Unit {0}
unfolding parse new release return_labels_to_pool get_labels_from_pool handle_line
    process_labels_from process_label validate_and_extract_value handle_metric_value
    set_metric_with_upstream process_comma_delimited_values process_values process_element
    process_value_with_upstream get_upstream_for_value extract_next_value parse_upstreams
    is_upstream_excluded set_metric set_metric_value apply_math_transformations is_negative
    trim_space split cut str_eq contains_str value_replacements
running = tt

parse_three :
    calls_of (result_of (new [] none upstream_config) (λ m. parse digit_floats m 0 line_of_three))
    ≡ add (codes "h" ∷ codes "a" ∷ []) b'1' ∷ add (codes "h" ∷ codes "c" ∷ []) b'4' ∷ []
unfolding running
parse_three = refl

-- a metric of that configuration, with a slice in its pool
abbrev pub upstream_metric : Metric
upstream_metric = record {
  metric = some (record {
    kind = counter_vec;
    name = codes "time";
    help = [];
    const_labels = [];
    buckets = [];
    label_keys = codes "host" ∷ codes "upstream" ∷ [];
  });
  ua = none;
  labels_pool = ([] ∷ [] ∷ []) ∷ [];
  label_count = 2;
  cfg = upstream_config;
}

abbrev pub upstream_valid : IsValid upstream_metric
unfolding label_count has_upstream_label
upstream_valid = record {
  vec = record {
    kind = counter_vec;
    name = codes "time";
    help = [];
    const_labels = [];
    buckets = [];
    label_keys = codes "host" ∷ codes "upstream" ∷ [];
  };
  built = refl;
  counted = refl;
  keyed = refl;
  pooled = (refl, tt);
  parses = (inl refl, tt);
  increments = inl (λ e. cc);
}

abbrev pub upstream_decoded : HasDecoded upstream_config
upstream_decoded = record { of_value = tt; of_labels = (tt, tt) }

parse-Fits_example :
    All (Fits upstream_valid.vec) (parse digit_floats upstream_metric 0 line_of_three).calls
parse-Fits_example =
    parse-Fits digit_floats upstream_metric upstream_valid upstream_decoded 0 line_of_three

parse-Returns_example : Returns (parse digit_floats upstream_metric 0 line_of_three).result
parse-Returns_example =
    parse-Returns digit_floats upstream_metric upstream_valid upstream_decoded 0 line_of_three

parse-IsValid_example : IsValid (parse digit_floats upstream_metric 0 line_of_three).after
parse-IsValid_example =
    parse-IsValid digit_floats upstream_metric upstream_valid upstream_decoded 0 line_of_three

abbrev two_lines : List (ℕ × List Bytes)
two_lines = (0, line_of_three) ∷ (1, codes "g" ∷ codes "7" ∷ codes "c" ∷ []) ∷ []

run-alone_example :
    run digit_floats upstream_metric two_lines
    ≡ map (λ input. parse_alone digit_floats upstream_metric input.1) two_lines
run-alone_example = run-alone digit_floats upstream_metric upstream_decoded two_lines upstream_valid

parse-IsIncluded_example :
    All
      (λ c. IsIncluded upstream_metric (labels_of c))
      (parse digit_floats upstream_metric 0 line_of_three).calls
parse-IsIncluded_example =
    parse-IsIncluded digit_floats upstream_metric upstream_valid upstream_decoded
      (record { enabled = refl; labelled = refl; valued = λ e. cc }) 0 line_of_three

process_comma-each_example :
    process_comma_delimited_values digit_floats upstream_metric
      (codes "1, 2,")
      (codes "a" ∷ codes "b" ∷ [])
    ≡ process_each digit_floats upstream_metric
        (codes "a" ∷ codes "b" ∷ [])
        0
        (elements (split (codes "1, 2,") b','))
process_comma-each_example =
    process_comma-each digit_floats upstream_metric (codes "a" ∷ codes "b" ∷ []) (codes "1, 2,")

abbrev pub plain_parser : Useragent.Parser
plain_parser = record { family = λ s. s }

new_total_example :
    (IsAccepted upstream_config
      × ((m : Metric) × (new [] (some plain_parser) upstream_config ≡ ok m)
          × IsBuilt [] upstream_config m))
    ⊎ ((e : Error) × Rejects [] upstream_config e
        × (new [] (some plain_parser) upstream_config ≡ err e))
new_total_example = new_total [] upstream_config plain_parser
