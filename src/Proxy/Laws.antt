-- ===== src/Proxy/Laws.antt =====
-- What a connection to the HTTP proxy of pkg/proxy/handler.go comes to, on every branch.
use dockprox.Base.{
  ℕ, zero, suc, ◌≤◌, ◌<◌, ◌≡◌, refl, ap, inl, inr, Option, none, some, [], ◌∷◌, ◌++◌, arith, ok,
  ltb, ◌==◌, if◌then◌else◌, Bool-cases, Option-cases, length, take, Result-cases,
}
use dockprox.Base.Text.{Text, codes, is_empty, text_eq, has_prefix, cut_first}
use dockprox.Base.TextLaws.{Lacks}
use dockprox.Base.HostPort.{split_host_port, join_host_port}
use dockprox.Match.Compile.{Matcher, new}
use dockprox.Config.Schema.{Config}
use dockprox.Config.Upstreams.{Url}
use dockprox.Config.Validate.{validate}
use dockprox.Config.Sound.{match_rules, known_upstreams}
use dockprox.Routing.Dialers.{Dialer, Dialers, Machine, new_registry}
use dockprox.Routing.Built.{IsMap}
use dockprox.Routing.Pick.{pick}
use dockprox.Routing.Routes.{IsRouted, pick-IsRouted}
use dockprox.Proxy.Handler.{
  RequestUrl, Request, Network, port_of, connect_to, connect_host, connect_read, handle_connect,
  answered, forward_to, stripped, forward_url, forward_request, handle_forward, handle,
  before_space, method,
}
use dockprox.Proxy.Spec.{
  IsTarget, origin, IsConnected, IsSent, IsForwarded, IsHandled, unread, no_target, unreached,
  tunnelled, not_reached, unsent, passed_on, not_read, no_url, no_host, forwarded, too_short,
  connects, forwards,
}

method-cons : (b : ℕ) (t : Text) → method (b ∷ t) ≡ (if b == 32 then [] else b ∷ method t)
unfolding method before_space cut_first
method-cons b t = elim (Option-cases (cut_first 32 t)) [
  | inl e ↦ rw e (ground arith)
  | inr ((x, y), e) ↦ rw e (ground arith)
]

length-take : (n : ℕ) (t : Text) → n ≤ length t → length (take n t) ≡ n
length-take zero t l = refl
length-take (suc n) [] l = absurd (omega arith)
length-take (suc n) (b ∷ t) l = ap suc (length-take n t (omega arith))

-- A text that a longer one begins with, and then a space, is its method.
method-has_prefix :
    (m t : Text)
    → Lacks 32 m
    → length m < length t
    → text_eq (method t) m ≡ has_prefix (m ++ 32 ∷ []) t
unfolding text_eq has_prefix
method-has_prefix m [] k l = absurd (omega arith)
method-has_prefix [] (b ∷ t) k l = rw (method-cons b t) (ground arith)
method-has_prefix (a ∷ m) (b ∷ t) (k, ks) l =
    let rest = method-has_prefix m t ks (omega arith) in rw (method-cons b t, ← rest) (ground arith)

module _ (net : Network) (m : Matcher) (reg : Dialers) (R : Text → Dialer → Type 0)
    (routes : (host : Text) → R host (pick none m reg host)) where
  connect_read-IsConnected : (o : Option Request) → IsConnected net R o (connect_read net m reg o)
  unfolding connect_read connect_host connect_to
  connect_read-IsConnected none = unread refl refl
  connect_read-IsConnected (some req) =
      let target = req.request_uri in
      elim (Result-cases (split_host_port target)) [
        | inr (e, f) ↦ no_target req e refl f (rw f refl)
        | inl ((host, port), f) ↦
            let d = pick none m reg host in
            elim (Bool-cases (net.reaches d target)) [
              | inl up ↦ tunnelled req host port d refl f (routes host) up (rw (f, up) refl)
              | inr down ↦ unreached req host port d refl f (routes host) down (rw (f, down) refl)
            ]
      ]

  IsTarget-port : (u : RequestUrl) → IsTarget u (join_host_port u.hostname (port_of u))
  IsTarget-port u = elim (Bool-cases (is_empty u.port)) [
    | inl e ↦ inl (ground arith, rw e refl)
    | inr e ↦ inr (ground arith, rw e refl)
  ]

  forward_to-IsSent :
      (o : Option Request) (req : Request) (u : RequestUrl) (d : Dialer) (target : Text)
      → IsSent net R o (forward_to net m reg target (stripped req u) d) u d target
  unfolding forward_to answered
  forward_to-IsSent o req u d target = elim (Bool-cases (net.reaches d target)) [
    | inr down ↦ not_reached down (rw down refl)
    | inl up ↦ elim (Bool-cases (net.takes d target (origin u))) [
      | inr fails ↦ unsent up fails (rw (up, fails) refl)
      | inl taken ↦ elim (Option-cases (net.response d target (origin u))) [
        | inl e ↦ passed_on up taken (rw (up, taken, e) refl)
        | inr (t, e) ↦ passed_on up taken (rw (up, taken, e) refl)
      ]
    ]
  ]

  forward_request-IsForwarded :
      (o : Option Request) → IsForwarded net R o (forward_request net m reg o)
  unfolding forward_request forward_url
  forward_request-IsForwarded none = not_read refl refl
  forward_request-IsForwarded (some req) = elim (Option-cases req.url) [
    | inl e ↦ no_url req refl e (rw e refl)
    | inr (u, e) ↦ elim (Bool-cases (is_empty u.host)) [
      | inl bare ↦ no_host req u refl e (ground arith) (rw (e, bare) refl)
      | inr there ↦
          forwarded req u (pick none m reg u.hostname) (join_host_port u.hostname (port_of u)) refl
            e (ground arith) (routes u.hostname) (IsTarget-port u)
            (rw (e, there)
              (forward_to-IsSent _ req u (pick none m reg u.hostname)
                (join_host_port u.hostname (port_of u))))
    ]
  ]

  handle-IsHandled : (input : Text) → IsHandled net R input (handle net m reg input)
  unfolding handle handle_connect handle_forward
  handle-IsHandled input = elim (Bool-cases (ltb (length input) 8)) [
    | inl short ↦ too_short (ground arith) (rw short refl)
    | inr long ↦
        let enough : 8 ≤ length input = ground arith in
        let asks =
          method-has_prefix (codes "CONNECT") (take 8 input) (ground arith)
            (rw (length-take 8 input enough) (omega arith)) in
        elim (Bool-cases (has_prefix (codes "CONNECT ") (take 8 input))) [
          | inl asks_so ↦
              connects enough asks_so
                (rw (long, asks, asks_so) (connect_read-IsConnected (net.read_request input)))
          | inr no_connect ↦
              forwards enough no_connect
                (rw (long, asks, no_connect) (forward_request-IsForwarded (net.read_request input)))
        ]
  ]

-- With the configuration's rules and registry, and by the request that net/http reads: of a
-- connection that sends less than eight bytes nothing comes. One that begins with "CONNECT " and
-- names a host and a port dials just these, through the dialer that the rules choose for the host,
-- and is told 200 and joined to what it reaches, or 502. Any other request, if it has a URL with a
-- host, dials that host at the port of its URL or at 80, through the dialer that the rules choose;
-- it is sent on without its request URI and without the scheme and host of its URL, and the
-- response, if one is read, is all that the client is told; or 502, where nothing is reached, and
-- nothing, where it cannot be sent. The rest is answered 400, without a dial.
pub handle-IsRouted :
    (net : Network) (parse_url : Text → Option Url) (machine : Machine) (c : Config) (reg : Dialers)
    (m : Matcher)
    → IsMap c.upstreams
    → validate parse_url c ≡ ok tt
    → new_registry machine c.upstreams ≡ ok reg
    → new (match_rules c) (known_upstreams c) ≡ ok m
    → (input : Text) → IsHandled net (IsRouted c) input (handle net m reg input)
handle-IsRouted net parse_url machine c reg m keys valid built compiled input =
    handle-IsHandled net m reg (IsRouted c)
      (pick-IsRouted parse_url machine c reg m keys valid built compiled) input
