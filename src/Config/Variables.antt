-- ===== src/Config/Variables.antt =====
-- The variables of the flags that internal/config/flags.go declares, one by one: assignments, defaults
-- and names.
use access_log_exporter.Prelude.{
  ◌≡◌, refl, Bool, true, false, Bytes, List, [], Option, some, none, ◌∷◌, ◌++◌, str_eq, ap, ◌∙◌,
  sym, str_eq_iff,
}
use access_log_exporter.Strings.Search.{cut}
use access_log_exporter.Config.Flags.{
  Host, Flag, Value, Variables, value_of, put, name_of, key_of, config, version, verify_config,
  buffer_size, worker, preset, log_format, log_level, nginx_scrape_url, nginx_scrape_timeout,
  debug_enable, web_listen_address, web_tls_cert_file, web_tls_key_file, syslog_listen_address,
}
use access_log_exporter.Config.FlagSet.{
  all_flags, find_flag, default_of, set_defaults, names, read_argument,
}

abbrev pub is_same : Flag → Flag → Bool
is_same f g = str_eq (name_of f) (name_of g)

pub value_of-put : (f : Flag) (a : Value f) (v : Variables) → value_of f (put f a v) ≡ a
unfolding value_of put
value_of-put version a v = refl
value_of-put _ a v = refl

pub value_of-put_other :
    (f g : Flag) (a : Value f) (v : Variables)
    → is_same g f ≡ false
    → value_of g (put f a v) ≡ value_of g v
unfolding value_of put name_of str_eq
value_of-put_other config config a v ne = cc
value_of-put_other version version a v ne = cc
value_of-put_other verify_config verify_config a v ne = cc
value_of-put_other buffer_size buffer_size a v ne = cc
value_of-put_other worker worker a v ne = cc
value_of-put_other preset preset a v ne = cc
value_of-put_other log_format log_format a v ne = cc
value_of-put_other log_level log_level a v ne = cc
value_of-put_other nginx_scrape_url nginx_scrape_url a v ne = cc
value_of-put_other nginx_scrape_timeout nginx_scrape_timeout a v ne = cc
value_of-put_other debug_enable debug_enable a v ne = cc
value_of-put_other web_listen_address web_listen_address a v ne = cc
value_of-put_other web_tls_cert_file web_tls_cert_file a v ne = cc
value_of-put_other web_tls_key_file web_tls_key_file a v ne = cc
value_of-put_other syslog_listen_address syslog_listen_address a v ne = cc
value_of-put_other _ _ a v ne = refl

-- what no flag sets
abbrev pub IsKept : Variables → Variables → Type 0
IsKept v w = (w.conf.presets ≡ v.conf.presets) × (w.conf.config_file ≡ v.conf.config_file)

pub put-IsKept : (f : Flag) (a : Value f) (v : Variables) → IsKept v (put f a v)
unfolding put
put-IsKept version a v = (refl, refl)
put-IsKept _ a v = (refl, refl)

pub set_defaults-IsKept :
    (host : Host) (flags : List Flag) (v : Variables) → IsKept v (set_defaults host flags v)
unfolding set_defaults
set_defaults-IsKept host [] v = (refl, refl)
set_defaults-IsKept host (f ∷ flags) v =
    let (k, l) = set_defaults-IsKept host flags (put f (default_of host f v) v) in
    let (m, n) = put-IsKept f (default_of host f v) v in (k ∙ m, l ∙ n)

pub find_flag-name : (f : Flag) → find_flag all_flags (name_of f) ≡ some f
unfolding find_flag name_of str_eq
find_flag-name version = refl
find_flag-name _ = refl

some_flag : (f g : Flag) → ◌≡◌ {A = Option Flag} (some f) (some g) → f ≡ g
some_flag f g e = cc

pub is_same→eq : (f g : Flag) → is_same f g ≡ true → f ≡ g
is_same→eq f g e = some_flag f g (
    sym (find_flag-name f)
    ∙ ap (find_flag all_flags) ((str_eq_iff (name_of f) (name_of g)).0 e)
    ∙ find_flag-name g)

-- `flagSet` declares every flag once
pub value_of-set_defaults :
    (host : Host) (f : Flag) (v : Variables)
    → value_of f (set_defaults host all_flags v) ≡ default_of host f v
unfolding value_of put set_defaults default_of key_of
value_of-set_defaults host version v = refl
value_of-set_defaults host _ v = refl

-- an argument with one dash or two
unfoldable pub dashed : Bool → Bytes → Bytes
dashed true s = b'-' ∷ b'-' ∷ s
dashed false s = b'-' ∷ s

pub read_argument-joined :
    (two : Bool) (f : Flag) (text : Bytes)
    → read_argument (dashed two (name_of f ++ b'=' ∷ text)) ≡ names (name_of f) (some text)
unfolding read_argument dashed name_of cut
read_argument-joined true version text = refl
read_argument-joined true _ text = refl
read_argument-joined false version text = refl
read_argument-joined false _ text = refl

pub read_argument-bare :
    (two : Bool) (f : Flag) → read_argument (dashed two (name_of f)) ≡ names (name_of f) none
unfolding read_argument dashed name_of cut
read_argument-bare true version = refl
read_argument-bare true _ = refl
read_argument-bare false version = refl
read_argument-bare false _ = refl
