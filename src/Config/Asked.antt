-- ===== src/Config/Asked.antt =====
-- Arguments that ask New of internal/config/config.go for the version or the help.
use access_log_exporter.Prelude.{
  ◌≡◌, refl, ◌∙◌, ap, true, List, [], ◌∷◌, ◌++◌, none, Bytes, codes, err, All, str_eq, inl, inr,
  Bool-cases,
}
use access_log_exporter.Strings.Search.{cut}
use access_log_exporter.Config.Sections.{defaults}
use access_log_exporter.Config.Lookup.{
  parse_bool, is_version_or_help, lookup_version_or_help_argument,
}
use access_log_exporter.Config.Flags.{Host, version, Variables, value_of, read, name_of}
use access_log_exporter.Config.FlagSet.{
  help_requested, names, not_defined, read_argument, unknown_flag, find_flag, is_bool_flag,
  parse_flags, all_flags, set_defaults,
}
use access_log_exporter.Config.Load.{
  version_requested, flag_error, unless_version, read_from_flag_and_environment, new, variables,
}
use access_log_exporter.Config.Variables.{dashed}
use access_log_exporter.Config.Command.{
  documented_name, Setting, bare, IsSetting, Stops, spell, chosen, parse_flags-settings,
  parse_flags-spell,
}

lookup-asked :
    (before : List Bytes) (arg : Bytes) (rest : List Bytes)
    → is_version_or_help arg ≡ true
    → lookup_version_or_help_argument (before ++ arg ∷ rest) ≡ true
unfolding lookup_version_or_help_argument
lookup-asked [] arg rest h = rw (h, lookup_version_or_help_argument) refl
lookup-asked (other ∷ before) arg rest h = elim (Bool-cases (is_version_or_help other)) [
  | inl e ↦ rw (e, lookup_version_or_help_argument) refl
  | inr e ↦ rw (e, lookup_version_or_help_argument) (lookup-asked before arg rest h)
]

-- an argument that asks, behind settings: the file is not read
new-asked :
    (host : Host) (program : Bytes) (settings : List Setting) (arg : Bytes) (rest : List Bytes)
    → All (IsSetting host) settings
    → is_version_or_help arg ≡ true
    → (v : Variables) × (new host (program ∷ (spell settings ++ arg ∷ rest))
        ≡ unless_version (parse_flags host none v (arg ∷ rest)))
unfolding new read_from_flag_and_environment
new-asked host program settings arg rest h asks =
    let (v, e, _, _) =
      parse_flags-settings host settings (arg ∷ rest)
        (set_defaults host all_flags (variables defaults)) h in
    (v, rw (lookup-asked (program ∷ spell settings) arg rest asks, new) (ap unless_version e))

new-unknown :
    (host : Host) (program : Bytes) (settings : List Setting) (arg name : Bytes) (rest : List Bytes)
    → All (IsSetting host) settings
    → is_version_or_help arg ≡ true
    → read_argument arg ≡ names name none
    → find_flag all_flags name ≡ none
    → new host (program ∷ (spell settings ++ arg ∷ rest)) ≡ err (flag_error (unknown_flag name))
unfolding parse_flags unless_version
new-unknown host program settings arg name rest h asks e f =
    let (v, p) = new-asked host program settings arg rest h asks in p ∙ rw (e, f, parse_flags) refl

asked-version :
    (host : Host) (v : Variables) (rest : List Bytes)
    → All (IsSetting host) (bare true version ∷ [])
    → Stops rest
    → unless_version (parse_flags host none v (codes "--version" ∷ rest)) ≡ err version_requested
unfolding unless_version value_of chosen spell documented_name dashed name_of read parse_bool str_eq
asked-version host v rest h stops =
    let (result, p, q, _) = parse_flags-spell host (bare true version ∷ []) rest v h stops in
    rw (p, unless_version, q version) refl

-- Behind settings that can be read, and whatever files there are, `New` returns the error of the help
-- for "-h", "--help" and "-help", and the error of the version for "--version" before the end of the
-- flags. "-v" skips the file too, but no flag has this name: the error is that of an unknown flag.
pub new-asks :
    (host : Host) (program : Bytes) (settings : List Setting) (rest stop : List Bytes)
    → All (IsSetting host) settings
    → Stops stop
    → let args : Bytes → List Bytes → List Bytes =
        λ arg rest. program ∷ (spell settings ++ arg ∷ rest) in
      (new host (args (codes "-h") rest) ≡ err (flag_error help_requested))
      × (new host (args (codes "--help") rest) ≡ err (flag_error help_requested))
      × (new host (args (codes "-help") rest) ≡ err (flag_error help_requested))
      × (new host (args (codes "--version") stop) ≡ err version_requested)
      × (new host (args (codes "-v") rest) ≡ err (flag_error (not_defined (codes "v"))))
unfolding is_version_or_help read_argument unknown_flag find_flag name_of str_eq read parse_bool cut
    is_bool_flag
new-asks host program settings rest stop h stops =
    let (v, p) = new-asked host program settings (codes "--version") stop h refl in
    (
      new-unknown host program settings (codes "-h") (codes "h") rest h refl refl refl,
      new-unknown host program settings (codes "--help") (codes "help") rest h refl refl refl,
      new-unknown host program settings (codes "-help") (codes "help") rest h refl refl refl,
      p ∙ asked-version host v stop (((refl, (true, refl)), tt)) stops,
      new-unknown host program settings (codes "-v") (codes "v") rest h refl refl refl,
    )
