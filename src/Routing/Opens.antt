-- ===== src/Routing/Opens.antt =====
-- Every listener of a configuration that Config.Validate accepts opens: New of
-- pkg/listener/listener.go.
use dockprox.Base.{
  ◌≡◌, refl, ◌⊎◌, inl, inr, Bool, true, Option, none, some, [], arith, ok, Bool-cases, is_some,
  Option-cases, All, All-imp,
}
use dockprox.Base.Text.{Text, is_empty, lookup}
use dockprox.Base.HostPort.{split_host_port}
use dockprox.Config.Schema.{
  Config, Upstream, Listener, ListenerKind, socks5_server, tcp_forward, unknown_listener,
  listener_kind,
}
use dockprox.Config.Upstreams.{Url}
use dockprox.Config.Validate.{Upstreams, validate}
use dockprox.Config.ListenerSound.{HasTarget}
use dockprox.Config.Sound.{validate_iff}
use dockprox.Routing.Dialers.{Dialer, Dialers, Machine, new_registry}
use dockprox.Routing.Built.{intended, IsMap}
use dockprox.Routing.Registry.{Serves, new_registry-Serves}
use dockprox.Routing.Pick.{
  Server, socks5_bound, forward_bound, pinned, found_pin, pin, new_server, new,
}

-- The pinned dialer that a listener's upstream calls for; none of a listener that names none.
abbrev pub IsPinned : Upstreams → Listener → Option Dialer → Type 0
IsPinned ups l p =
    ((l.upstream ≡ []) × (p ≡ none))
    ⊎ ((u : Upstream) × (d : Dialer) × (lookup l.upstream ups ≡ some u)
        × (intended ups l.upstream u ≡ some d)
        × (p ≡ some d))

-- The server that a listener describes. The host of a port forward is that of its target.
abbrev pub Describes : ListenerKind → Listener → Server → Type 0
Describes socks5_server l (socks5_bound listen p) = listen ≡ l.listen
Describes tcp_forward l (forward_bound listen target host p) =
    (listen ≡ l.listen)
    × (target ≡ l.target)
    × ((port : Text) × (split_host_port l.target ≡ ok (host, port)))
Describes k l s = ⊥

pin-IsPinned :
    (machine : Machine) (ups : Upstreams) (reg : Dialers) (l : Listener)
    → ((name : Text) → Serves machine ups reg name (lookup name ups))
    → (l.upstream ≡ []) ⊎ (is_some (lookup l.upstream ups) ≡ true)
    → (p : Option Dialer) × (pin reg l.upstream ≡ ok p) × IsPinned ups l p
unfolding pin found_pin
pin-IsPinned machine ups reg l serves h = elim (Bool-cases (is_empty l.upstream)) [
  | inl e ↦ (none, rw e refl, inl (ground arith, refl))
  | inr n ↦ elim (Option-cases (lookup l.upstream ups)) [
    | inl f ↦ absurd (ground arith)
    | inr (u, f) ↦
        let (d, g, called) = (rw f at (serves l.upstream)) in
        (some d, rw (n, g) refl, inr (u, d, f, called, refl))
  ]
]

module _ (can_bind : Text → Bool) where
  new_server-Describes :
      (k : ListenerKind) (l : Listener) (p : Option Dialer)
      → can_bind l.listen ≡ true
      → HasTarget k l
      → (s : Server) × (new_server can_bind k l p ≡ ok s) × (pinned s ≡ p) × Describes k l s
  unfolding new_server
  new_server-Describes socks5_server l p b h = (socks5_bound l.listen p, rw b refl, refl, refl)
  new_server-Describes tcp_forward l p b (host, port, e, n) =
      (forward_bound l.listen l.target host p, rw (e, b) refl, refl, (refl, refl, (port, e)))
  new_server-Describes unknown_listener l p b h = absurd h

  -- A listener of an accepted configuration whose address can be bound opens as the server that it
  -- describes, pinned to the dialer of its upstream if it names one: its type is never unknown, its
  -- target splits, and its upstream is in the registry.
  pub new-Describes :
      (parse_url : Text → Option Url) (machine : Machine) (c : Config) (reg : Dialers)
      → IsMap c.upstreams
      → validate parse_url c ≡ ok tt
      → new_registry machine c.upstreams ≡ ok reg
      → All
          (λ l.
            can_bind l.listen ≡ true
            → (s : Server) × (new can_bind reg l ≡ ok s)
              × IsPinned c.upstreams l (pinned s)
              × Describes (listener_kind l.type) l s)
          c.listeners
  unfolding new
  new-Describes parse_url machine c reg keys valid built =
      let consistent = (validate_iff parse_url c).0 valid in
      let serves = new_registry-Serves machine c.upstreams reg keys consistent.vias built in
      All-imp c.listeners
        (λ l h b.
          let (p, e, pins) = pin-IsPinned machine c.upstreams reg l serves h.upstream in
          let (s, f, same, describes) =
            new_server-Describes (listener_kind l.type) l p b h.target in
          (s, rw e f, rw same pins, describes))
        consistent.listeners
