-- ===== src/Telemetry/Method.antt =====
-- `ParseFullMethod`, `PeerAttr` and `TelemetryAttributes`: the name and the attributes of a span.
use Prim.Native.Char.{Char, code}
use Prim.Native.String.append
use gitstafette.Common.{
  ℕ, ◌≡◌, ◌∙◌, refl, ap, String, Bool, false, not, ◌||◌, Option, none, some, List, [], ◌∷◌, ◌++◌,
  ◌==◌, ◌<>◌, arith, eqb, if◌then◌else◌,
}

pub data KeyValue : Type 0 where
  rpc_system_grpc : KeyValue
  rpc_service : String → KeyValue
  rpc_method : String → KeyValue
  net_sock_peer_addr : String → KeyValue
  net_sock_peer_port : ℕ → KeyValue
  net_peer_name : String → KeyValue
  net_peer_port : ℕ → KeyValue

abbrev pub is_slash : Char → Bool
is_slash c = eqb (code c) b'/'

-- What stands before and behind the last slash (`strings.LastIndex` and two slices).
abbrev pub before_or_here : Char → String → Option (String × String) → Option (String × String)
before_or_here c s (some (service, method)) = some (String.◌∷◌ c service, method)
before_or_here c s none = if is_slash c then some ("", s) else none

unfoldable pub at_last_slash : String → Option (String × String)
at_last_slash String.[] = none
at_last_slash (String.◌∷◌ c s) = before_or_here c s (at_last_slash s)

abbrev pub method_attrs : String → String → List KeyValue
method_attrs service method =
    (if not (service == "") then rpc_service service ∷ [] else [])
    ++ (if not (method == "") then rpc_method method ∷ [] else [])

abbrev pub named : String → Option (String × String) → String × List KeyValue
named name none = (name, [])
named name (some (service, method)) = (name, method_attrs service method)

-- The leading slash goes; without one the name is the whole text and there are no attributes.
unfoldable pub parse_full_method : String → String × List KeyValue
unfolding at_last_slash
parse_full_method String.[] = ("", [])
parse_full_method (String.◌∷◌ c name) =
    if is_slash c then named name (at_last_slash name) else (String.◌∷◌ c name, [])

-- Parts of Go's library: `net.SplitHostPort`, `strconv.Atoi` (for ports, which are not negative)
-- and `net.ParseIP`. `none` is an error.
pub record Net : Type 0 where
  pub split_host_port : String → Option (String × String)
  pub atoi : String → Option ℕ
  pub is_ip : String → Bool

module _ (net : Net) where
  abbrev attrs_of : String → Option ℕ → List KeyValue
  attrs_of host none = []
  attrs_of host (some port) =
      if net.is_ip host
      then net_sock_peer_addr host ∷ net_sock_peer_port port ∷ []
      else net_peer_name host ∷ net_peer_port port ∷ []

  abbrev host_or_local : String → String
  host_or_local host = if host == "" then "127.0.0.1" else host

  abbrev attrs_at : Option (String × String) → List KeyValue
  attrs_at none = []
  attrs_at (some (host, p)) = attrs_of (host_or_local host) (net.atoi p)

  unfoldable pub peer_attr : String → List KeyValue
  peer_attr addr = attrs_at (net.split_host_port addr)

  -- The name, the attributes of the span, and those of the metrics, which are the front part.
  unfoldable pub telemetry_attributes : String → String → String × List KeyValue × List KeyValue
  unfolding parse_full_method peer_attr
  telemetry_attributes full_method peer_address =
      let parsed = parse_full_method full_method in
      (parsed.0, (rpc_system_grpc ∷ parsed.1) ++ peer_attr peer_address, rpc_system_grpc ∷ parsed.1)

abbrev pub has_slash : String → Bool
has_slash String.[] = false
has_slash (String.◌∷◌ c s) = is_slash c || has_slash s

no_last_slash : (s : String) → has_slash s ≡ false → at_last_slash s ≡ none
unfolding at_last_slash
no_last_slash String.[] h = refl
no_last_slash (String.◌∷◌ c s) h = ground (arith, no_last_slash s)

slash-append : (s : String) → "/" <> s ≡ String.◌∷◌ "/" s
slash-append s = append.cons "/" "" s ∙ ap (String.◌∷◌ "/") (append.nil s)

last_slash :
    (service method : String)
    → has_slash method ≡ false
    → at_last_slash (service <> "/" <> method) ≡ some (service, method)
unfolding at_last_slash
last_slash String.[] method h =
    ap at_last_slash (append.nil ("/" <> method) ∙ slash-append method)
    ∙ rw (at_last_slash, no_last_slash method h) refl
last_slash (String.◌∷◌ c s) method h =
    rw (append.cons c s ("/" <> method), at_last_slash, last_slash s method h) refl

-- The parts of a full method `/service/method`, whose method has no slash, are found again, also
-- where the service has slashes of its own; an empty part gives no attribute.
pub parse_full_method_lem :
    (service method : String)
    → has_slash method ≡ false
    → parse_full_method ("/" <> service <> "/" <> method)
      ≡ (service <> "/" <> method, method_attrs service method)
unfolding parse_full_method
parse_full_method_lem service method h =
    ap parse_full_method (slash-append (service <> "/" <> method))
    ∙ rw (parse_full_method, last_slash service method h) refl
