-- ===== src/Gateway/Proxy.antt =====
-- crates/ovid-gateway/src/proxy.rs: what the gateway decides. Sockets, threads and the log file are
-- input and output: a connection is the first line of its request, as code points, and whether
-- forwarding it succeeds.
pub mod Refusals
use ovid.Prelude.{
  ℕ, ◌+◌, ◌-◌, ◌%◌, ◌^◌, Bool, true, false, ◌||◌, Option, none, some, List, [], ◌∷◌, ◌++◌, Text,
  lit, show, contains, has_text, map, rsplit_once, split_once, trim_start_char, trim_end_char,
  parse_unsigned, u16_max, ◌>>=◌, leb, ◌&&◌, text_eq, if◌then◌else◌,
}
use ovid.Core.Digest.{strip_prefix}
use ovid.Planner.Miners.{is_whitespace}

-- A `BTreeSet` is a list of its elements.
pub data GatewayPolicy : Type 0 where
  deny forward : GatewayPolicy
  forward_except : List Text → GatewayPolicy

abbrev pub endpoint : Text → ℕ → Text
endpoint host port = host ++ (lit ":" ++ show port)

unfoldable pub refuses : GatewayPolicy → Text → ℕ → Bool
refuses deny host port = true
refuses forward host port = false
refuses (forward_except blocked) host port =
    contains blocked (endpoint host port) || contains blocked host

pub record Upstream : Type 0 where
  pub host : Text
  pub port : ℕ

-- `Upstream::parse` after the checks.
upstream_at : Text → Option Upstream
upstream_at rest = do
  at ← rsplit_once b':' rest
  port ← parse_unsigned u16_max at.1
  some (record { host = at.0; port = port })

unfoldable pub parse_upstream : Text → Option Upstream
unfolding upstream_at
parse_upstream url = do
  stripped ← strip_prefix (lit "http://") url
  let rest = trim_end_char b'/' stripped
  if has_text (lit "@") rest || has_text (lit "/") rest then none else upstream_at rest

pub record GatewayIntent : Type 0 where
  pub seq : ℕ
  pub host : Text
  pub port : ℕ
  pub scheme : Text
  pub method : Text
  pub path : Text
  pub decision : Text

-- The head is kept by the connection.
pub record ProxyRequest : Type 0 where
  pub host : Text
  pub port : ℕ
  pub scheme : Text
  pub method : Text
  pub path : Text

-- `split_whitespace`: the words before a current one, and it.
split_words : Text → Text → List Text
split_words [] [] = []
split_words (c ∷ word) [] = (c ∷ word) ∷ []
split_words [] (c ∷ s) = split_words (if is_whitespace c then [] else c ∷ []) s
split_words (w ∷ word) (c ∷ s) =
    let ended = (w ∷ word) ∷ split_words [] s in
    let grown = split_words ((w ∷ word) ++ (c ∷ [])) s in if is_whitespace c then ended else grown

upper : ℕ → ℕ
upper c = if leb b'a' c && leb c b'z' then c - 32 else c

-- `CONNECT host:port HTTP/1.1`
connect_request : Text → Text → Option ProxyRequest
connect_request method target = do
  at ← rsplit_once b':' target
  port ← parse_unsigned u16_max at.1
  some (record {
    host = trim_end_char b']' (trim_start_char b'[' at.0);
    port = port;
    scheme = lit "https";
    method = method;
    path = [];
  })

-- `rest.find('/')`
authority_and_path : Text → Text × Text
authority_and_path rest = elim (split_once b'/' rest) [
  | none ↦ (rest, lit "/")
  | some (authority, path) ↦ (authority, b'/' ∷ path)
]

host_and_port : Text → Option (Text × ℕ)
host_and_port authority = elim (rsplit_once b':' authority) [
  | none ↦ some (authority, 80)
  | some (host, port_text) ↦ (parse_unsigned u16_max port_text >>= λ port. some (host, port))
]

-- `GET http://host[:port]/path HTTP/1.1`
absolute_request : Text → Text → Option ProxyRequest
unfolding authority_and_path host_and_port
absolute_request method target = do
  rest ← strip_prefix (lit "http://") target
  let parts = authority_and_path rest
  at ← host_and_port parts.0
  some (record { host = at.0; port = at.1; scheme = lit "http"; method = method; path = parts.1 })

request_of : List Text → Option ProxyRequest
unfolding connect_request absolute_request upper
request_of (method ∷ target ∷ rest) =
    if text_eq.beq (map upper method) (lit "CONNECT")
    then connect_request method target
    else absolute_request method target
request_of _ = none

-- `parse_request`, from the first line of the head on.
unfoldable pub parse_request : Text → Option ProxyRequest
unfolding request_of split_words
parse_request first_line = request_of (split_words [] first_line)

-- What a connection leaves behind: the intent that it records.
pub record Handled : Type 0 where
  pub intent : GatewayIntent

unfoldable pub intent_of : ProxyRequest → Text → GatewayIntent
intent_of r decision = record {
  seq = 0;
  host = r.host;
  port = r.port;
  scheme = r.scheme;
  method = r.method;
  path = r.path;
  decision = decision;
}

-- `handle_connection` for a request that was read; whether `forward` answers `Ok` is an argument.
-- What it sends and dials is input and output.
unfoldable pub handle_request : GatewayPolicy → Bool → ProxyRequest → Handled
unfolding intent_of
handle_request policy reaches r =
    if refuses policy r.host r.port
    then record { intent = intent_of r (lit "refused") }
    else if reaches
    then record { intent = intent_of r (lit "forwarded") }
    else record { intent = intent_of r (lit "forward-failed") }

pub record Connection : Type 0 where
  pub first_line : Text
  pub reaches : Bool

-- A connection whose request cannot be read records nothing.
unfoldable pub handle_connection : GatewayPolicy → Connection → Option Handled
handle_connection policy c =
    parse_request c.first_line >>= λ r. some (handle_request policy c.reaches r)

-- `GatewayState::record`: the sequence number, which wraps.
numbered : ℕ → Handled → Handled
numbered seq h = record h { intent = record (h.intent) { seq = seq } }

-- The connections in the order in which they record their intents.
unfoldable pub serve : GatewayPolicy → ℕ → List Connection → List Handled
unfolding numbered
serve policy seq [] = []
serve policy seq (c ∷ cs) = elim (handle_connection policy c) [
  | none ↦ serve policy seq cs
  | some h ↦ numbered seq h ∷ serve policy ((seq + 1) % 2 ^ 64) cs
]

abbrev pub intents : List Handled → List GatewayIntent
intents hs = map (λ h. h.intent) hs
