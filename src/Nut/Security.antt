-- ===== src/Nut/Security.antt =====
-- internal/nut/client.go: when a connection stays plain.
use nut_operator.Prelude.{ℕ, List, true, some, ◌≡◌, arith, ◌⊎◌, inl, inr, Bool-cases, Option-cases}
use nut_operator.Text.{codes, text_eq}
use nut_operator.Nut.{TlsOptions, Peer, plain, is_off, is_without_tls, on_reply, negotiate_tls}

-- The server said that it has no TLS, in answer to STARTTLS.
abbrev pub IsDeclined : Peer → Type 0
IsDeclined peer = (reply : List ℕ) × (peer.reply ≡ some reply) × (is_without_tls reply ≡ true)

on_reply-plain :
    (options : TlsOptions) (peer : Peer) (reply : List ℕ)
    → on_reply options.mode peer reply ≡ plain
    → (text_eq options.mode (codes "Opportunistic") ≡ true) × (is_without_tls reply ≡ true)
unfolding on_reply
on_reply-plain options peer reply h = ground arith

-- A connection stays plain only if the TLS mode is empty or Disabled, or it is Opportunistic and
-- the server answered STARTTLS with one of the two errors that say that it has no TLS.
pub negotiate_tls-plain :
    (options : TlsOptions) (peer : Peer)
    → negotiate_tls options peer ≡ plain
    → (is_off options.mode ≡ true)
      ⊎ ((text_eq options.mode (codes "Opportunistic") ≡ true) × IsDeclined peer)
unfolding negotiate_tls
negotiate_tls-plain options peer h = elim (Option-cases peer.reply) [
  | inl e ↦ inl (ground arith)
  | inr (reply, e) ↦ elim (Bool-cases (is_off options.mode)) [
    | inl off ↦ inl off
    | inr on ↦
        let (mode, without) = on_reply-plain options peer reply (ground arith) in
        inr (mode, (reply, e, without))
  ]
]
