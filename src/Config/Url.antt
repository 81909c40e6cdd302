-- ===== src/Config/Url.antt =====
-- URL of internal/config/types/url.go. Package net/url is given by two functions: what `url.Parse`
-- makes of a text, and `String` of a parsed URL.
use access_log_exporter.Prelude.{
  Bool, true, [], Option, none, some, Bytes, is_empty, if◌then◌else◌, Result, ok, err, panic,
}

pub data UrlError : Type 0 where
  empty_url not_parsed : UrlError

module _ {StdUrl : Type 0} (parse : Bytes → Option StdUrl) (string_of : StdUrl → Bytes) where
  -- `URL` embeds a pointer
  abbrev pub Url : Type 0
  Url = Option StdUrl

  -- `NewURL`
  unfoldable pub new_url : Bytes → Result UrlError Url
  new_url u =
      if is_empty u
      then err empty_url
      else elim (parse u) [ none ↦ err not_parsed | some std_url ↦ ok (some std_url) ]

  -- `IsEmpty`
  unfoldable pub is_empty_url : Url → Bool
  is_empty_url none = true
  is_empty_url (some std_url) = is_empty (string_of std_url)

  -- `String` and `MarshalText`
  unfoldable pub marshal_text : Url → Bytes
  unfolding is_empty_url
  marshal_text none = []
  marshal_text (some std_url) = if is_empty_url (some std_url) then [] else string_of std_url

  -- `UnmarshalText`: the receiver after it, and the error
  unfoldable pub unmarshal_text : Bytes → Url → Url × Result UrlError (Unit {0})
  unfolding new_url
  unmarshal_text text u = elim (new_url text) [
    | ok parsed_url ↦ (parsed_url, ok tt)
    | err e ↦ (u, err e)
    | panic p ↦ (u, panic p)
  ]
