-- ===== src/Config/FlagExamples.antt =====
-- The theorems on the flags and the order of the sources, at concrete command lines.
use access_log_exporter.Prelude.{
  ◌≡◌, refl, true, false, List, [], ◌∷◌, ◌++◌, none, some, Bytes, codes, ok, err, All, str_eq,
  if◌then◌else◌,
}
use access_log_exporter.Strings.Search.{cut}
use access_log_exporter.Config.Sections.{defaults}
use access_log_exporter.Config.Lookup.{
  parse_bool, is_version_or_help, lookup_version_or_help_argument,
}
use access_log_exporter.Config.Flags.{
  Host, Flag, Variables, preset, buffer_size, debug_enable, value_of, put, read, name_of,
}
use access_log_exporter.Config.FlagSet.{
  help_requested, not_defined, is_bool_flag, read_argument, find_flag, parse_flags,
}
use access_log_exporter.Config.Load.{
  read_from_config_file, variables, version_requested, flag_error, new,
}
use access_log_exporter.Config.Literals.{parse_uint_literal}
use access_log_exporter.Config.Variables.{IsKept, dashed}
use access_log_exporter.Config.Command.{
  documented_name, Setting, joined, apart, bare, IsSetting, Stops, spell, chosen, or_else,
}
use access_log_exporter.Config.Precedence.{Precedes, new-Precedes}
use access_log_exporter.Config.Asked.{new-asks}
use access_log_exporter.Config.Accepted.{parse_flags_accepts}

-- a host with one file, which the decoder leaves the configuration for, and one variable
abbrev plain_host : Host
plain_host = record {
  lookup_env = λ name. if str_eq name (codes "CONFIG_PRESET") then some (codes "env") else none;
  parse_url = λ s. some (record { string = s });
  parse_duration = λ s. none;
  open_file = λ path. some [];
  decode = λ content c. ok c;
}

abbrev plain_settings : List Setting
plain_settings =
    joined true buffer_size (codes "0x10")
    ∷ apart false preset (codes "p")
    ∷ bare true debug_enable
    ∷ joined false buffer_size (codes "7")
    ∷ []

plain-IsSetting : All (IsSetting plain_host) plain_settings
unfolding is_bool_flag read parse_bool parse_uint_literal str_eq
plain-IsSetting =
    ((tt, (16, refl)), ((refl, (codes "p", refl)), ((refl, (true, refl)), ((tt, (7, refl)), tt))))

new-Precedes_example :
    (v : Variables) × (new plain_host
        (codes "exporter" ∷ (spell plain_settings ++ codes "end" ∷ []))
      ≡ ok v.conf)
    × Precedes plain_host plain_settings defaults v
    × IsKept (variables defaults) v
unfolding read_argument lookup_version_or_help_argument is_version_or_help read_from_config_file
    chosen spell documented_name name_of dashed str_eq
new-Precedes_example =
    new-Precedes plain_host (codes "exporter") plain_settings (codes "end" ∷ []) defaults
      plain-IsSetting refl refl refl (λ e. cc)

-- the last of the two buffer sizes counts
test_chosen : chosen plain_host buffer_size plain_settings ≡ some 7
unfolding chosen name_of read parse_uint_literal str_eq
test_chosen = refl

new-asks_example :
    let args : Bytes → List Bytes → List Bytes =
      λ arg rest. codes "exporter" ∷ (spell plain_settings ++ arg ∷ rest) in
    (new plain_host (args (codes "-h") (codes "x" ∷ [])) ≡ err (flag_error help_requested))
    × (new plain_host (args (codes "--help") (codes "x" ∷ [])) ≡ err (flag_error help_requested))
    × (new plain_host (args (codes "-help") (codes "x" ∷ [])) ≡ err (flag_error help_requested))
    × (new plain_host (args (codes "--version") []) ≡ err version_requested)
    × (new plain_host (args (codes "-v") (codes "x" ∷ []))
        ≡ err (flag_error (not_defined (codes "v"))))
new-asks_example =
    new-asks plain_host (codes "exporter") plain_settings (codes "x" ∷ []) [] plain-IsSetting tt

abbrev one_flag : Variables
one_flag = record (variables defaults) { conf = record defaults { preset = codes "p" } }

parse_flags_accepts_example :
    (settings : List Setting) × (rest : List Bytes) × (codes "-preset=p" ∷ codes "end" ∷ []
      ≡ spell settings ++ rest)
    × All (IsSetting plain_host) settings
    × Stops rest
    × ((g : Flag)
        → value_of g one_flag
          ≡ or_else (chosen plain_host g settings) (value_of g (variables defaults)))
unfolding parse_flags read_argument find_flag name_of read put str_eq cut
parse_flags_accepts_example =
    parse_flags_accepts plain_host (variables defaults) one_flag
      (codes "-preset=p" ∷ codes "end" ∷ []) refl
