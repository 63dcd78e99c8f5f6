-- ===== src/Proxy/Handler.antt =====
-- A connection to the HTTP proxy: handle, handleConnect, handleForward and pick of
-- pkg/proxy/handler.go. Reading and writing of requests and responses by net/http, and the dialers'
-- connections, are parameters; the relay of the bytes of a tunnel is left out.
use dockprox.Base.{
  Bool, true, false, not, Option, none, some, List, [], ◌∷◌, ◌++◌, Result, ok, err, ltb,
  if◌then◌else◌, length, take,
}
use dockprox.Base.Text.{Text, codes, is_empty, text_eq, cut_first}
use dockprox.Base.HostPort.{HostPortError, split_host_port, join_host_port}
use dockprox.Match.Compile.{Matcher}
use dockprox.Routing.Dialers.{Dialer, Dialers}
use dockprox.Routing.Pick.{pick}

-- What the code reads of an http.Request: its target, and the parts of its URL, if it has one.
pub record RequestUrl : Type 0 where
  pub scheme : Text
  pub host : Text
  pub hostname : Text
  pub port : Text

pub record Request : Type 0 where
  pub request_uri : Text
  pub url : Option RequestUrl

-- http.ReadRequest of what the client sends, whether a dialer reaches a target, whether the request
-- can be written to it, the response that is read, and whether that can be written to the client.
pub record Network : Type 0 where
  pub read_request : Text → Option Request
  pub reaches : Dialer → Text → Bool
  pub takes : Dialer → Text → Request → Bool
  pub response : Dialer → Text → Request → Option Text

-- What a connection comes to: the texts written to the client, the dial, the request that is sent
-- on, and whether the two connections are joined.
pub record Handled : Type 0 where
  pub wrote : List Text
  pub dialed : Option (Dialer × Text)
  pub sent : Option Request
  pub joined : Bool

abbrev pub nothing : Handled
nothing = record { wrote = []; dialed = none; sent = none; joined = false }

abbrev pub replies : Text → Handled
replies t = record nothing { wrote = t ∷ [] }

abbrev pub crlf : Text
crlf = 13 ∷ 10 ∷ 13 ∷ 10 ∷ []

abbrev pub bad_request : Text
bad_request = codes "HTTP/1.1 400 Bad Request" ++ crlf

abbrev pub bad_gateway : Text
bad_gateway = codes "HTTP/1.1 502 Bad Gateway" ++ crlf

abbrev pub established : Text
established = codes "HTTP/1.1 200 Connection Established" ++ crlf

-- `strings.Cut` at a space of the first eight bytes.
unfoldable pub before_space : Option (Text × Text) → Text → Text
before_space none t = t
before_space (some (a, b)) t = a

unfoldable pub method : Text → Text
unfolding before_space
method t = before_space (cut_first 32 t) t

abbrev pub port_of : RequestUrl → Text
port_of u = if is_empty u.port then codes "80" else u.port

-- The request without what names the proxy's target.
abbrev pub stripped : Request → RequestUrl → Request
stripped req u = record { request_uri = []; url = some (record u { scheme = []; host = [] }) }

module _ (net : Network) (m : Matcher) (reg : Dialers) where
  unfoldable pub connect_to : Text → Dialer → Handled
  connect_to target d =
      if net.reaches d target
      then record {
        wrote = established ∷ [];
        dialed = some (d, target);
        sent = none;
        joined = true;
      }
      else record (replies bad_gateway) { dialed = some (d, target) }

  unfoldable pub connect_host : Text → Result HostPortError (Text × Text) → Handled
  unfolding connect_to
  connect_host target (err e) = replies bad_request
  connect_host target (ok (host, port)) = connect_to target (pick none m reg host)

  unfoldable pub connect_read : Option Request → Handled
  connect_read none = replies bad_request
  connect_read (some req) = connect_host req.request_uri (split_host_port req.request_uri)

  unfoldable pub handle_connect : Text → Handled
  handle_connect input = connect_read (net.read_request input)

  -- The response, once the request is written.
  unfoldable pub answered : Handled → Option Text → Handled
  answered h none = h
  answered h (some response) = record h { wrote = response ∷ [] }

  unfoldable pub forward_to : Text → Request → Dialer → Handled
  unfolding answered
  forward_to target req d =
      let dials = record nothing { dialed = some (d, target) } in
      if not (net.reaches d target)
      then record dials { wrote = bad_gateway ∷ [] }
      else if not (net.takes d target req)
      then dials
      else answered (record dials { sent = some req }) (net.response d target req)

  unfoldable pub forward_url : Request → Option RequestUrl → Handled
  unfolding forward_to
  forward_url req none = replies bad_request
  forward_url req (some u) =
      if is_empty u.host
      then replies bad_request
      else forward_to (join_host_port u.hostname (port_of u)) (stripped req u)
          (pick none m reg u.hostname)

  unfoldable pub forward_request : Option Request → Handled
  forward_request none = replies bad_request
  forward_request (some req) = forward_url req req.url

  unfoldable pub handle_forward : Text → Handled
  handle_forward input = forward_request (net.read_request input)

  -- `Peek` of eight bytes, and the choice by the method.
  unfoldable pub handle : Text → Handled
  handle input =
      if ltb (length input) 8
      then nothing
      else if text_eq (method (take 8 input)) (codes "CONNECT")
      then handle_connect input
      else handle_forward input
