-- ===== src/Proxy/Spec.antt =====
-- What a connection to the HTTP proxy of pkg/proxy/handler.go is to come to, by what the client
-- sends.
use dockprox.Base.{
  ◌≤◌, ◌<◌, ◌≡◌, ◌≢◌, ◌⊎◌, Bool, true, false, Option, none, some, List, [], ◌∷◌, ok, err, length,
  take,
}
use dockprox.Base.Text.{Text, codes, has_prefix}
use dockprox.Base.HostPort.{HostPortError, split_host_port, join_host_port}
use dockprox.Routing.Dialers.{Dialer}
use dockprox.Proxy.Handler.{
  RequestUrl, Request, Network, Handled, nothing, replies, bad_request, bad_gateway, established,
}

-- What a connection is answered, once a dial to a target was made.
abbrev pub dialled : Dialer → Text → List Text → Option Request → Bool → Handled
dialled d target wrote sent joined = record {
  wrote = wrote;
  dialed = some (d, target);
  sent = sent;
  joined = joined;
}

-- The target of a request with a URL: its host, with its port or 80.
abbrev pub IsTarget : RequestUrl → Text → Type 0
IsTarget u target =
    ((u.port ≡ []) × (target ≡ join_host_port u.hostname (codes "80")))
    ⊎ ((u.port ≢ []) × (target ≡ join_host_port u.hostname u.port))

-- The request as it is sent on.
abbrev pub origin : RequestUrl → Request
origin u = record {
  request_uri = [];
  url = some (record { scheme = []; host = []; hostname = u.hostname; port = u.port });
}

abbrev pub to_list : Option Text → List Text
to_list none = []
to_list (some t) = t ∷ []

module _ (net : Network) (R : Text → Dialer → Type 0) (o : Option Request) (h : Handled) where
  -- What a CONNECT comes to, by the request that is read.
  pub data IsConnected : Type 0 where
    unread : o ≡ none → h ≡ replies bad_request → IsConnected
    no_target :
        (req : Request) (e : HostPortError)
        → o ≡ some req
        → split_host_port req.request_uri ≡ err e
        → h ≡ replies bad_request
        → IsConnected
    unreached :
        (req : Request) (host port : Text) (d : Dialer)
        → o ≡ some req
        → split_host_port req.request_uri ≡ ok (host, port)
        → R host d
        → net.reaches d req.request_uri ≡ false
        → h ≡ dialled d req.request_uri (bad_gateway ∷ []) none false
        → IsConnected
    tunnelled :
        (req : Request) (host port : Text) (d : Dialer)
        → o ≡ some req
        → split_host_port req.request_uri ≡ ok (host, port)
        → R host d
        → net.reaches d req.request_uri ≡ true
        → h ≡ dialled d req.request_uri (established ∷ []) none true
        → IsConnected

  -- What becomes of a request that goes to a target through a dialer.
  pub data IsSent (u : RequestUrl) (d : Dialer) (target : Text) : Type 0 where
    not_reached :
        net.reaches d target ≡ false
        → h ≡ dialled d target (bad_gateway ∷ []) none false
        → IsSent u d target
    unsent :
        net.reaches d target ≡ true
        → net.takes d target (origin u) ≡ false
        → h ≡ dialled d target [] none false
        → IsSent u d target
    passed_on :
        net.reaches d target ≡ true
        → net.takes d target (origin u) ≡ true
        → h ≡ dialled d target (to_list (net.response d target (origin u))) (some (origin u)) false
        → IsSent u d target

  -- What any other request comes to.
  pub data IsForwarded : Type 0 where
    not_read : o ≡ none → h ≡ replies bad_request → IsForwarded
    no_url : (req : Request) → o ≡ some req → req.url ≡ none → h ≡ replies bad_request → IsForwarded
    no_host :
        (req : Request) (u : RequestUrl)
        → o ≡ some req
        → req.url ≡ some u
        → u.host ≡ []
        → h ≡ replies bad_request
        → IsForwarded
    forwarded :
        (req : Request) (u : RequestUrl) (d : Dialer) (target : Text)
        → o ≡ some req
        → req.url ≡ some u
        → u.host ≢ []
        → R u.hostname d
        → IsTarget u target
        → IsSent u d target
        → IsForwarded

-- What a connection comes to, by the first bytes and the request that is read.
pub data IsHandled (net : Network) (R : Text → Dialer → Type 0) (input : Text) (h : Handled)
    : Type 0 where
  too_short : length input < 8 → h ≡ nothing → IsHandled net R input h
  connects :
      8 ≤ length input
      → has_prefix (codes "CONNECT ") (take 8 input) ≡ true
      → IsConnected net R (net.read_request input) h
      → IsHandled net R input h
  forwards :
      8 ≤ length input
      → has_prefix (codes "CONNECT ") (take 8 input) ≡ false
      → IsForwarded net R (net.read_request input) h
      → IsHandled net R input h
