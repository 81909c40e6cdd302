-- ===== src/Config/Command.antt =====
-- Command lines for the flags of internal/config/flags.go, written independently of their parser, and
-- the values that they choose.
use access_log_exporter.Prelude.{
  ◌≡◌, refl, sym, subst, ap, ◌∙◌, inl, inr, Bool, true, false, List, [], ◌∷◌, ◌++◌, Option, none,
  some, Bytes, codes, ok, All, Bool-cases, Option-cases,
}
use access_log_exporter.Config.Flags.{
  Host, Flag, Value, Variables, value_of, put, read, name_of, config, version, verify_config,
  buffer_size, worker, preset, log_format, log_level, nginx_scrape_url, nginx_scrape_timeout,
  debug_enable, web_listen_address, web_tls_cert_file, web_tls_key_file, syslog_listen_address,
}
use access_log_exporter.Config.FlagSet.{is_bool_flag, ends, read_argument, parse_flags}
use access_log_exporter.Config.Variables.{
  is_same, IsKept, put-IsKept, value_of-put, value_of-put_other, find_flag-name, is_same→eq, dashed,
  read_argument-joined, read_argument-bare,
}

-- "-name=text", "-name text" and "-name", each also with two dashes
pub data Setting : Type 0 where
  joined : (two : Bool) → Flag → Bytes → Setting
  apart : (two : Bool) → Flag → Bytes → Setting
  bare : (two : Bool) → Flag → Setting

abbrev pub flag_of : Setting → Flag
flag_of (joined two f text) = f
flag_of (apart two f text) = f
flag_of (bare two f) = f

abbrev pub text_of : Setting → Bytes
text_of (joined two f text) = text
text_of (apart two f text) = text
text_of (bare two f) = codes "true"

-- the names of the flags in docs/Configuration.md, and those of the two log flags, which it does not
-- list
unfoldable pub documented_name : Flag → Bytes
documented_name config = codes "config"
documented_name version = codes "version"
documented_name verify_config = codes "verify-config"
documented_name buffer_size = codes "buffer-size"
documented_name worker = codes "worker"
documented_name preset = codes "preset"
documented_name log_format = codes "log.format"
documented_name log_level = codes "log.level"
documented_name nginx_scrape_url = codes "nginx.scrape-url"
documented_name nginx_scrape_timeout = codes "nginx.scrape-timeout"
documented_name debug_enable = codes "debug.enable"
documented_name web_listen_address = codes "web.listen-address"
documented_name web_tls_cert_file = codes "web.tls-cert-file"
documented_name web_tls_key_file = codes "web.tls-key-file"
documented_name syslog_listen_address = codes "syslog.listen-address"

pub documented_name_lem : (f : Flag) → documented_name f ≡ name_of f
unfolding documented_name name_of
documented_name_lem config = refl
documented_name_lem version = refl
documented_name_lem verify_config = refl
documented_name_lem buffer_size = refl
documented_name_lem worker = refl
documented_name_lem preset = refl
documented_name_lem log_format = refl
documented_name_lem log_level = refl
documented_name_lem nginx_scrape_url = refl
documented_name_lem nginx_scrape_timeout = refl
documented_name_lem debug_enable = refl
documented_name_lem web_listen_address = refl
documented_name_lem web_tls_cert_file = refl
documented_name_lem web_tls_key_file = refl
documented_name_lem syslog_listen_address = refl

unfoldable pub spell : List Setting → List Bytes
unfolding dashed documented_name
spell [] = []
spell (joined two f text ∷ settings) =
    dashed two (documented_name f ++ b'=' ∷ text) ∷ spell settings
spell (apart two f text ∷ settings) = dashed two (documented_name f) ∷ text ∷ spell settings
spell (bare two f ∷ settings) = dashed two (documented_name f) ∷ spell settings

-- only the flags with a Boolean variable stand alone
abbrev pub IsForm : Setting → Type 0
IsForm (joined two f text) = Unit
IsForm (apart two f text) = is_bool_flag f ≡ false
IsForm (bare two f) = is_bool_flag f ≡ true

abbrev pub IsSetting : Host → Setting → Type 0
IsSetting host s =
    IsForm s × ((a : Value (flag_of s)) × (read host (flag_of s) (text_of s) ≡ some a))

-- the arguments behind the flags
abbrev pub Stops : List Bytes → Type 0
Stops [] = Unit
Stops (arg ∷ args) = read_argument arg ≡ ends

-- the value of the last setting of a flag
unfoldable pub chosen : Host → (g : Flag) → List Setting → Option (Value g)
chosen host g [] = none
chosen host g (s ∷ settings) = elim (chosen host g settings) [
  | some a ↦ some a
  | none ↦ elim (is_same g (flag_of s)) [ true ↦ read host g (text_of s) | false ↦ none ]
]

abbrev pub or_else {ℓ} : {A : Type ℓ} → Option A → A → A
or_else none a = a
or_else (some b) a = b

parse_flags-Stops :
    (host : Host) (v : Variables) (rest : List Bytes)
    → Stops rest
    → parse_flags host none v rest ≡ ok v
unfolding parse_flags
parse_flags-Stops host v [] h = refl
parse_flags-Stops host v (arg ∷ args) h = rw (h, parse_flags) refl

parse_flags-value :
    (host : Host) (f : Flag) (text : Bytes) (args : List Bytes) (v : Variables) (a : Value f)
    → read host f text ≡ some a
    → parse_flags host (some f) v (text ∷ args) ≡ parse_flags host none (put f a v) args
unfolding parse_flags
parse_flags-value host f text args v a e = rw (e, parse_flags) refl

-- a setting in front is an assignment
parse_flags-setting :
    (host : Host) (s : Setting) (settings : List Setting) (rest : List Bytes) (v : Variables)
    → IsForm s
    → (a : Value (flag_of s)) → read host (flag_of s) (text_of s) ≡ some a
    → parse_flags host none v (spell (s ∷ settings) ++ rest)
      ≡ parse_flags host none (put (flag_of s) a v) (spell settings ++ rest)
unfolding parse_flags spell
parse_flags-setting host (joined two f text) settings rest v form a e =
    rw (documented_name_lem f, read_argument-joined two f text, find_flag-name f, e, parse_flags)
      refl
parse_flags-setting host (apart two f text) settings rest v form a e =
    rw (documented_name_lem f, read_argument-bare two f, find_flag-name f, form, parse_flags)
      (parse_flags-value host f text (spell settings ++ rest) v a e)
parse_flags-setting host (bare two f) settings rest v form a e =
    rw (documented_name_lem f, read_argument-bare two f, find_flag-name f, form, e, parse_flags)
      refl

same-value :
    (host : Host) (f : Flag) (text : Bytes) (v : Variables) (a : Value f)
    → read host f text ≡ some a
    → (g : Flag) → g ≡ f
    → value_of g (put f a v) ≡ or_else (read host g text) (value_of g v)
same-value host f text v a e g p =
    subst (λ g. value_of g (put f a v) ≡ or_else (read host g text) (value_of g v)) (sym p)
      (value_of-put f a v ∙ sym (ap (λ o. or_else o (value_of f v)) e))

-- one more setting in front counts where no later one does
chosen-setting :
    (host : Host) (g : Flag) (s : Setting) (settings : List Setting) (v : Variables)
    → (a : Value (flag_of s)) → read host (flag_of s) (text_of s) ≡ some a
    → or_else (chosen host g settings) (value_of g (put (flag_of s) a v))
      ≡ or_else (chosen host g (s ∷ settings)) (value_of g v)
unfolding chosen
chosen-setting host g s settings v a e = elim (Option-cases (chosen host g settings)) [
  | inr (b, c) ↦ rw (c, chosen) refl
  | inl c ↦ elim (Bool-cases (is_same g (flag_of s))) [
    | inl q ↦
        rw (c, chosen, q)
          (same-value host (flag_of s) (text_of s) v a e g (is_same→eq g (flag_of s) q))
    | inr q ↦ rw (c, chosen, q) (value_of-put_other (flag_of s) g a v q)
  ]
]

-- settings in front only assign
pub parse_flags-settings :
    (host : Host) (settings : List Setting) (rest : List Bytes) (v : Variables)
    → All (IsSetting host) settings
    → (result : Variables) × (parse_flags host none v (spell settings ++ rest)
        ≡ parse_flags host none result rest)
      × ((g : Flag) → value_of g result ≡ or_else (chosen host g settings) (value_of g v))
      × IsKept v result
unfolding chosen spell
parse_flags-settings host [] rest v h = (v, refl, (λ g. refl), (refl, refl))
parse_flags-settings host (s ∷ settings) rest v ((form, (a, e)), h) =
    let (result, p, q, (k, l)) = parse_flags-settings host settings rest (put (flag_of s) a v) h in
    (
      result,
      parse_flags-setting host s settings rest v form a e ∙ p,
      (λ g. q g ∙ chosen-setting host g s settings v a e),
      (k ∙ (put-IsKept (flag_of s) a v).0, l ∙ (put-IsKept (flag_of s) a v).1),
    )

-- `Parse` of settings, up to arguments that end the flags
pub parse_flags-spell :
    (host : Host) (settings : List Setting) (rest : List Bytes) (v : Variables)
    → All (IsSetting host) settings
    → Stops rest
    → (result : Variables) × (parse_flags host none v (spell settings ++ rest) ≡ ok result)
      × ((g : Flag) → value_of g result ≡ or_else (chosen host g settings) (value_of g v))
      × IsKept v result
parse_flags-spell host settings rest v h stops =
    let (result, p, q, k) = parse_flags-settings host settings rest v h in
    (result, p ∙ parse_flags-Stops host result rest stops, q, k)
