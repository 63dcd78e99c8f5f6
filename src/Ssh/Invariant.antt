-- ===== src/Ssh/Invariant.antt =====
-- The invariant of a Client of pkg/sshclient/client.go and the calls that use it.
use dockprox.Base.{
  ℕ, ◌+◌, ◌<◌, ◌≡◌, refl, sym, ap, ◌∙◌, ◌≢◌, inl, inr, Bool, true, false, not, ◌||◌, Option, none,
  some, List, [], ◌∷◌, arith, ◌==◌, if◌then◌else◌, Bool-cases, is_some,
}
use dockprox.Ssh.Client.{
  ConnState, unknown, connected, disconnected, connecting, awaiting_approval, iota, Client,
  set_state,
}
use dockprox.Ssh.Steps.{Phase, free, entered, dialing, World, without_current}

abbrev pub busy : Phase → Bool
busy free = false
busy entered = true
busy (dialing b) = true

abbrev pub in_dial : Phase → Bool
in_dial free = false
in_dial entered = false
in_dial (dialing b) = true

-- A dial that no cancel has reached.
abbrev pub runs_on : Phase → Bool
runs_on free = false
runs_on entered = false
runs_on (dialing b) = not b

abbrev pub latest : List ConnState → ConnState
latest [] = unknown
latest (s ∷ ss) = s

of_iota : ℕ → ConnState
of_iota n =
    if n == 1
    then connected
    else if n == 2
    then disconnected
    else if n == 3
    then connecting
    else if n == 4
    then awaiting_approval
    else unknown

of_iota-iota : (s : ConnState) → of_iota (iota s) ≡ s
unfolding of_iota
of_iota-iota unknown = refl
of_iota-iota connected = refl
of_iota-iota disconnected = refl
of_iota-iota connecting = refl
of_iota-iota awaiting_approval = refl

iota-injective : (s t : ConnState) → iota s ≡ iota t → s ≡ t
iota-injective s t e = sym (of_iota-iota s) ∙ ap of_iota e ∙ of_iota-iota t

abbrev pub changed : ConnState → Client → List ConnState
changed s c = if iota c.state == iota s then c.changes else s ∷ c.changes

pub set_state-eq :
    (s : ConnState) (c : Client) → set_state s c ≡ record c { state = s; changes = changed s c }
unfolding set_state
set_state-eq s c = elim (Bool-cases (iota c.state == iota s)) [
  | inl same ↦ let e = iota-injective c.state s (ground arith) in rw (same, sym e) refl
  | inr other ↦ rw other refl
]

pub latest-changed :
    (s : ConnState) (c : Client) → c.state ≡ latest c.changes → latest (changed s c) ≡ s
latest-changed s c e = elim (Bool-cases (iota c.state == iota s)) [
  | inl same ↦ let e' = iota-injective c.state s (ground arith) in rw same (sym e ∙ e')
  | inr other ↦ rw other refl
]

pub record IsSafe (w : World) : Type 0 where
  -- Whoever dials has no connection yet, and every open connection is the client's.
  pub alone : busy w.phase ≡ true → w.client.cli ≡ none
  pub owned : (id : ℕ) → w.is_open id ≡ true → w.client.cli ≡ some id
  -- While the connection is held down, a dial or a connection is one that a call of Down is still
  -- to close, and a dial that is not cancelled one that it is still to cancel.
  pub settling :
      w.client.held ≡ true
      → (busy w.phase || is_some w.client.cli) ≡ true
      → 0 < w.aborting + w.closing
  pub heard : w.client.held ≡ true → runs_on w.phase ≡ true → 0 < w.aborting
  pub published : w.client.abort ≡ in_dial w.phase
  -- The state is connected only with a connection, and observers were called on it last.
  pub shown : iota w.client.state ≡ 1 → is_some w.client.cli ≡ true
  pub announced : w.client.state ≡ latest w.client.changes

-- A change of the state that does not claim a connection.
pub with_state :
    (w : World) (s : ConnState)
    → (iota s ≡ 1 → is_some w.client.cli ≡ true)
    → IsSafe w
    → IsSafe (record w { client = set_state s w.client })
with_state w s claim h = rw (set_state-eq s w.client) (record {
  alone = h.alone;
  owned = h.owned;
  settling = h.settling;
  heard = h.heard;
  published = h.published;
  shown = claim;
  announced = sym (latest-changed s w.client h.announced);
})

-- Nobody dials and nothing is connected.
pub idle :
    (w : World)
    → w.phase ≡ free
    → w.client.cli ≡ none
    → w.client.abort ≡ false
    → ((id : ℕ) → w.is_open id ≡ false)
    → iota w.client.state ≢ 1
    → w.client.state ≡ latest w.client.changes
    → IsSafe w
idle w p c a closed n e = record {
  alone = λ q. c;
  owned = λ id q. absurd (ground (arith, closed id));
  settling = λ q k. absurd (ground arith);
  heard = λ q k. absurd (ground arith);
  published = ground arith;
  shown = λ q. absurd (n q);
  announced = e;
}

-- The client's connection is closed, and no other was open.
pub without_current-false :
    (cli : Option ℕ) (is_open : ℕ → Bool)
    → ((id : ℕ) → is_open id ≡ true → cli ≡ some id)
    → (id : ℕ) → without_current cli is_open id ≡ false
without_current-false none is_open owned id = elim (Bool-cases (is_open id)) [
  | inl o ↦ absurd (ground (arith, owned id o))
  | inr c ↦ c
]
without_current-false (some current) is_open owned id = elim (Bool-cases (is_open id)) [
  | inl o ↦ let same : current ≡ id = ground (arith, owned id o) in ground arith
  | inr c ↦ ground arith
]

pub none_open : (w : World) → IsSafe w → w.client.cli ≡ none → (id : ℕ) → w.is_open id ≡ false
none_open w h e id = elim (Bool-cases (w.is_open id)) [
  | inl o ↦ absurd (ground (arith, h.owned id o))
  | inr c ↦ c
]
