-- ===== src/Ticket/Parse.antt =====
-- conn.go: `parseHandshakeMessage` and `tls13ParseNewSessionTicket`.
use cnnic_gmtls.Base.{
  ℕ, ◌+◌, ◌*◌, ◌≡◌, ◌≤◌, ◌<◌, refl, arith, List, [], ◌∷◌, ◌++◌, ltb, need, length, length-append,
  Outcome, ok, ◌>>=◌, ◌>>◌, fail_if, IsReturn, Returns, Returns-bind, Returns-need, put_uint16,
  put_uint32, get_byte, get_uint16, get_uint24, get_uint32, get_uint16-put, get_uint32-put, split,
  split-append, split-Returns, get_byte-Returns, get_uint16-Returns, IsReturn,
}
use cnnic_gmtls.Ticket.{SessionTicket}

-- The type, the body and what follows.
unfoldable pub parse_handshake_message : List ℕ → Outcome (ℕ × List ℕ × List ℕ)
unfolding get_byte get_uint24 split
parse_handshake_message data' = do
  fail_if (ltb (length data') 4) "short handshake header"
  (typ, rest) ← get_byte data'
  (ln, rest) ← get_uint24 rest
  fail_if (ltb (length rest) ln) "truncated handshake body"
  (body, rest) ← split ln rest
  ok (typ, body, rest)

-- `trimTLS13Handshake`
unfoldable pub trim_handshake : List ℕ → Outcome (List ℕ)
unfolding get_uint24 get_byte split
trim_handshake plaintext = do
  fail_if (ltb (length plaintext) 4) "gmtls: invalid TLS 1.3 handshake message"
  (_, rest) ← get_byte plaintext
  (msg_len, rest) ← get_uint24 rest
  fail_if (ltb (length plaintext) (4 + msg_len)) "gmtls: truncated TLS 1.3 handshake message"
  (message', _) ← split (4 + msg_len) plaintext
  ok message'

-- The key and the time of arrival are set by the caller.
unfoldable pub parse_new_session_ticket : List ℕ → Outcome SessionTicket
parse_new_session_ticket body = do
  fail_if (ltb (length body) 13) "short NewSessionTicket body"
  (lifetime, rest) ← get_uint32 body
  (age_add, rest) ← get_uint32 rest
  (nonce_len, rest) ← get_byte rest
  fail_if (ltb (length rest) (nonce_len + 2)) "short NewSessionTicket nonce"
  (nonce, rest) ← split nonce_len rest
  fail_if (ltb (length rest) 2) "short NewSessionTicket ticket length"
  (ticket_len, rest) ← get_uint16 rest
  fail_if (ltb (length rest) (ticket_len + 2)) "short NewSessionTicket ticket"
  (ticket, rest) ← split ticket_len rest
  fail_if (ltb (length rest) 2) "short NewSessionTicket extensions length"
  (ext_len, rest) ← get_uint16 rest
  fail_if (ltb (length rest) ext_len) "short NewSessionTicket extensions"
  ok (record {
    lifetime = lifetime;
    age_add = age_add;
    nonce = nonce;
    ticket = ticket;
    psk = [];
    received_at = 0;
  })

-- The body of a NewSessionTicket message (RFC 8446, 4.6.1), which the code only reads.
abbrev pub put_new_session_ticket : ℕ → ℕ → List ℕ → List ℕ → List ℕ → List ℕ
put_new_session_ticket lifetime age_add nonce ticket extensions =
    put_uint32 lifetime
    ++ (put_uint32 age_add
        ++ (length nonce
            ∷ (nonce
                ++ (put_uint16 (length ticket)
                    ++ (ticket ++ (put_uint16 (length extensions) ++ extensions))))))

get_uint32-Returns :
    (d : List ℕ) → 4 ≤ length d → Returns (get_uint32 d) (λ r. length r.1 + 4 ≡ length d)
unfolding get_uint32
get_uint32-Returns [] h = absurd (omega arith)
get_uint32-Returns (a ∷ []) h = absurd (omega arith)
get_uint32-Returns (a ∷ b ∷ []) h = absurd (omega arith)
get_uint32-Returns (a ∷ b ∷ c ∷ []) h = absurd (omega arith)
get_uint32-Returns (a ∷ b ∷ c ∷ e ∷ d) h = omega arith

-- Every ticket message of the form of RFC 8446 whose fields fit their widths is read, each field
-- as it was sent.
pub parse-put_new_session_ticket :
    (lifetime age_add : ℕ) (nonce ticket extensions : List ℕ)
    → lifetime < 4294967296
    → age_add < 4294967296
    → length nonce < 256
    → length ticket < 65536
    → length extensions < 65536
    → parse_new_session_ticket (put_new_session_ticket lifetime age_add nonce ticket extensions)
      ≡ ok (record {
        lifetime = lifetime;
        age_add = age_add;
        nonce = nonce;
        ticket = ticket;
        psk = [];
        received_at = 0;
      })
unfolding parse_new_session_ticket get_byte
parse-put_new_session_ticket lifetime age_add nonce ticket extensions l a n t x =
    let tail = put_uint16 (length extensions) ++ extensions in
    let t₂ = put_uint16 (length ticket) ++ (ticket ++ tail) in
    let t₁ = nonce ++ t₂ in
    let size₂ = length-append ticket tail in
    let size₁ = length-append nonce t₂ in
    let body = put_uint32 lifetime ++ (put_uint32 age_add ++ (length nonce ∷ t₁)) in
    need (length body) 13 _ (omega (arith, size₁, size₂)) (
      rw (get_uint32-put lifetime _ l, get_uint32-put age_add _ a)
        (need (length t₁) (length nonce + 2) _ (omega (arith, size₁, size₂)) (
          rw (split-append nonce t₂) (
            need (length t₂) 2 _ (omega arith) (
              rw (get_uint16-put (length ticket) (ticket ++ tail) t) (
                need (length (ticket ++ tail)) (length ticket + 2) _ (omega (arith, size₂)) (
                  rw (split-append ticket tail) (
                    need (length tail) 2 _ (omega arith) (
                      rw (get_uint16-put (length extensions) extensions x)
                        (need (length extensions) (length extensions) _ (omega arith) refl))))))))))

-- No bytes make the reading of a ticket panic.
pub parse_new_session_ticket-IsReturn : (d : List ℕ) → IsReturn (parse_new_session_ticket d)
unfolding parse_new_session_ticket
parse_new_session_ticket-IsReturn d = Returns-need _ (length d) 13 _ _ (λ h.
    Returns-bind _ _ (get_uint32 d) _ (get_uint32-Returns d (omega arith)) (λ b hb.
      Returns-bind _ _ (get_uint32 b.1) _ (get_uint32-Returns b.1 (omega arith)) (λ c hc.
        Returns-bind _ _ (get_byte c.1) _ (get_byte-Returns c.1 (omega arith)) (λ e he.
          Returns-need _ (length e.1) (e.0 + 2) _ _ (λ h'.
            Returns-bind _ _ (split e.0 e.1) _ (split-Returns e.0 e.1 (omega arith)) (λ f hf.
              Returns-need _ (length f.1) 2 _ _ (λ i.
                Returns-bind _ _ (get_uint16 f.1) _ (get_uint16-Returns f.1 i) (λ g hg.
                  Returns-need _ (length g.1) (g.0 + 2) _ _ (λ j.
                    Returns-bind _ _ (split g.0 g.1) _ (split-Returns g.0 g.1 (omega arith))
                      (λ k hk. Returns-need _ (length k.1) 2 _ _ (λ m.
                        Returns-bind _ _ (get_uint16 k.1) _ (get_uint16-Returns k.1 m)
                          (λ o ho. Returns-need _ (length o.1) o.0 _ _ (λ _. tt)))))))))))))

pub parse_handshake_message-Returns :
    (d : List ℕ) → Returns (parse_handshake_message d) (λ r. length r.1 + length r.2 + 4 ≡ length d)
unfolding parse_handshake_message
parse_handshake_message-Returns [] = tt
parse_handshake_message-Returns (a ∷ []) = tt
parse_handshake_message-Returns (a ∷ b ∷ []) = tt
parse_handshake_message-Returns (a ∷ b ∷ c ∷ []) = tt
parse_handshake_message-Returns (a ∷ b ∷ c ∷ e ∷ d) =
    let n = b * 65536 + c * 256 + e in ground (arith, split-Returns n d)
