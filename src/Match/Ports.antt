-- ===== src/Match/Ports.antt =====
-- What stripPort of pkg/match/match.go leaves of a host, and what First cannot tell apart.
use dockprox.Base.{◌≡◌, refl, ◌∙◌, ◌≢◌, inl, inr, [], ◌∷◌, ◌++◌, arith}
use dockprox.Base.Text.{Text, lower_byte, to_lower}
use dockprox.Base.TextLaws.{
  Lacks, cut_last-append, cut_first-append, cut_last-Lacks, to_lower-append, to_lower-Lacks,
}
use dockprox.Match.Host.{strip_port, host_key}
use dockprox.Match.Compile.{Matcher}
use dockprox.Match.First.{first}

-- The text begins with a byte, and that is no bracket.
abbrev pub IsBare : Text → Type 0
IsBare [] = ⊥
IsBare (c ∷ t) = c ≢ b'['

to_lower-IsBare : (t : Text) → IsBare t → IsBare (to_lower t)
unfolding to_lower lower_byte
to_lower-IsBare [] h = h
to_lower-IsBare (c ∷ t) h = ground arith

strip_port-last_colon : (h p : Text) → IsBare h → Lacks b':' p → strip_port (h ++ b':' ∷ p) ≡ h
unfolding strip_port
strip_port-last_colon [] p b k = absurd b
strip_port-last_colon (c ∷ h) p b k = rw (cut_last-append b':' (c ∷ h) p k) (ground arith)

to_lower-colon : (h p : Text) → to_lower (h ++ b':' ∷ p) ≡ to_lower h ++ b':' ∷ to_lower p
to_lower-colon h p = to_lower-append h (b':' ∷ p) ∙ unfold to_lower lower_byte in refl

-- The key of a host with a port is the host in lower case.
host_key-port : (h p : Text) → IsBare h → Lacks b':' p → host_key (h ++ b':' ∷ p) ≡ to_lower h
unfolding host_key
host_key-port h p b k = rw (to_lower-colon h p) (
    strip_port-last_colon (to_lower h) (to_lower p) (to_lower-IsBare h b)
      (to_lower-Lacks b':' p (inl (omega arith)) k))

strip_port-brackets : (h rest : Text) → Lacks b']' h → strip_port (b'[' ∷ h ++ b']' ∷ rest) ≡ h
unfolding strip_port
strip_port-brackets h rest k =
    rw (cut_first-append b']' (b'[' ∷ h) rest ((λ e. omega arith), k)) (ground arith)

host_key-brackets : (h rest : Text) → Lacks b']' h → host_key (b'[' ∷ h ++ b']' ∷ rest) ≡ to_lower h
unfolding host_key
host_key-brackets h rest k =
    let lowered : to_lower (b'[' ∷ h ++ b']' ∷ rest) ≡ b'[' ∷ to_lower h ++ b']' ∷ to_lower rest =
      to_lower-append (b'[' ∷ h) (b']' ∷ rest) ∙ unfold to_lower lower_byte in refl in
    rw lowered (
      strip_port-brackets (to_lower h) (to_lower rest)
        (to_lower-Lacks b']' h (inr (omega arith, omega arith)) k))

strip_port-no_colon : (h : Text) → IsBare h → Lacks b':' h → strip_port h ≡ h
unfolding strip_port
strip_port-no_colon [] b k = absurd b
strip_port-no_colon (c ∷ h) b k = rw (cut_last-Lacks b':' (c ∷ h) k) (ground arith)

-- A host that begins with no bracket and holds no colon is looked up in lower case, with a port and
-- without; what stands in leading brackets is looked up whatever follows them.
host_key_forms :
    (h p v6 rest : Text)
    → IsBare h
    → Lacks b':' h
    → Lacks b':' p
    → Lacks b']' v6
    → (host_key h ≡ to_lower h)
      × (host_key (h ++ b':' ∷ p) ≡ to_lower h)
      × (host_key (b'[' ∷ v6 ++ b']' ∷ rest) ≡ to_lower v6)
host_key_forms h p v6 rest b k q l = (
  unfold host_key in
      strip_port-no_colon (to_lower h) (to_lower-IsBare h b)
        (to_lower-Lacks b':' h (inl (omega arith)) k),
  host_key-port h p b q,
  host_key-brackets v6 rest l,
)

-- The last group of an address outside brackets is cut off like a port: no matcher tells apart two
-- hosts, neither beginning with a bracket, that differ only behind their last colon.
pub first-last_colon :
    (m : Matcher) (h p q : Text)
    → IsBare h
    → Lacks b':' p
    → Lacks b':' q
    → first m (h ++ b':' ∷ p) ≡ first m (h ++ b':' ∷ q)
unfolding first
first-last_colon m h p q b k l = rw (host_key-port h p b k, host_key-port h q b l) refl
