-- ===== src/Useragent.antt =====
-- internal/useragent. The parser is built by the package uaparser, and is an argument here.
use access_log_exporter.Prelude.{Option, none, some, Bytes, Result, ok, panic, library_panic}

-- A `*uaparser.Parser`: the field `UserAgent.Family` of what its `Parse` returns.
pub record Parser : Type 0 where
  pub family : Bytes → Bytes

-- `none` stands for an error of `uaparser.New`. `sync.OnceValue` hands the same outcome, the panic
-- too, to every later call.
unfoldable pub new : {E : Type 0} → Option Parser → Result E Parser
new none = panic library_panic
new (some parser) = ok parser
