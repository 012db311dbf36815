-- ===== src/FileTransfer/Tickets.antt =====
-- Proofs about windows/flowtype-core/src/file_transfer.rs: the tickets that `FileTicket::validate`
-- lets through.
use flow_type.Prelude.{
  Text, ℕ, ◌+◌, ◌*◌, ◌/◌, ◌≤◌, ◌<◌, ◌≡◌, ◌≢◌, ◌↔◌, ◌⊎◌, inl, inr, refl, sym, ◌∙◌, ap, subst, true,
  none, some, [], ◌∷◌, ◌++◌, arith, ltb, All, length, replicate, byte_len, Bool-cases, Option-cases,
  length-append,
}
use flow_type.Protocol.{protocol_version}
use flow_type.FileTransfer.{
  ok, file_transfer_version, max_batch_id_bytes, min_ticket_bytes, max_ticket_text_bytes,
  max_wire_integer,
}
use flow_type.FileTransfer.Messages.{
  FileTicket, is_identifier_byte, valid_identifier, wrapping_sub, base64_url_decoded_len,
  validate_versions, validate_batch_id, validate_ticket,
}
use flow_type.FileTransfer.Wire.{IsIdentifier, valid_identifier_iff}
use flow_type.FileTransfer.Tokens.{
  IsToken, bytes_padded, decoded_sound, base64_url_decoded_len_iff, length-replicate,
}

-- The tokens of a ticket: identifier characters and at most two equals signs, long enough for 32
-- bytes; or one or two equals signs alone, for which the subtraction of the padding wraps.
pub record IsTicketToken (s : Text) : Type 0 where
  pub body : Text
  pub padding : ℕ
  pub is : s ≡ body ++ replicate padding b'='
  pub plain : All (λ c. is_identifier_byte c ≡ true) body
  pub padded : padding ≤ 2
  pub long : (min_ticket_bytes + padding ≤ length s * 3 / 4) ⊎ ((body ≡ []) × (padding ≢ 0))

short_body : (body : Text) (l p : ℕ) → l ≡ length body + p → l * 3 / 4 < p → p ≤ 2 → body ≡ []
short_body [] l p e h k = refl
short_body (c ∷ body) l p e h k = absurd (omega arith)

token_long :
    (s : Text) (n : ℕ)
    → IsToken s n
    → min_ticket_bytes ≤ n
    → length s ≤ max_ticket_text_bytes
    → IsTicketToken s
token_long s n t m l = record {
  body = t.body;
  padding = t.padding;
  is = t.is;
  plain = t.plain;
  padded = t.padded;
  long = elim (Bool-cases (ltb (length s * 3 / 4) t.padding)) [
    | inl e ↦
        inr (
          short_body t.body (length s) t.padding padded_length (ground arith) t.padded,
          ground arith,
        )
    | inr e ↦ inl (ground (arith, t.decoded, t.padded))
  ];
}
  where
    padded_length : length s ≡ length t.body + t.padding
    padded_length =
        ap length t.is
        ∙ omega (arith, length-append t.body (replicate t.padding b'='), length-replicate t.padding)

padded_length : (body : Text) (n : ℕ) → length (body ++ replicate n b'=') ≡ length body + n
padded_length body n = omega (arith, length-append body (replicate n b'='), length-replicate n)

long_wraps :
    (body : Text) (l p : ℕ)
    → l ≡ length body + p
    → p ≤ 2
    → (min_ticket_bytes + p ≤ l * 3 / 4) ⊎ ((body ≡ []) × (p ≢ 0))
    → l ≤ max_ticket_text_bytes
    → (min_ticket_bytes ≤ wrapping_sub (l * 3 / 4) p) × (l ≢ 0)
long_wraps body l p e k (inl h) m = (ground arith, ground arith)
long_wraps [] l p e k (inr h) m = (ground arith, ground arith)
long_wraps (c ∷ body) l p e k (inr h) m = absurd (ground arith)

long_back :
    (s : Text)
    → IsTicketToken s
    → length s ≤ max_ticket_text_bytes
    → (n : ℕ) × IsToken s n × (min_ticket_bytes ≤ n)
long_back s t l =
    let facts =
      long_wraps t.body (length s) t.padding (ap length t.is ∙ padded_length t.body t.padding)
        t.padded t.long l in
    (
      wrapping_sub (length s * 3 / 4) t.padding,
      record {
        body = t.body;
        padding = t.padding;
        is = t.is;
        plain = t.plain;
        padded = t.padded;
        something = λ e. facts.1 (ap length e);
        decoded = refl;
      },
      facts.0,
    )

token_ascii_length : (s : Text) (n : ℕ) → IsToken s n → byte_len s ≡ length s
token_ascii_length s n t =
    subst (λ r. byte_len r ≡ length r) (sym t.is)
      (ap length (bytes_padded t.body t.padding t.plain))

-- What the code takes for a ticket at the time `now`.
pub record IsTicket (now : ℕ) (t : FileTicket) : Type 0 where
  pub protocol : t.protocol_version ≡ protocol_version
  pub version : t.transfer_version ≡ file_transfer_version
  pub batch_named : IsIdentifier max_batch_id_bytes t.batch_id
  pub port : t.data_port ≢ 0
  pub token : IsTicketToken t.token
  pub short : length t.token ≤ max_ticket_text_bytes
  pub fits : t.expires_at_epoch_seconds ≤ max_wire_integer
  pub fresh : now < t.expires_at_epoch_seconds

ticket_refused_without :
    (now : ℕ) (t : FileTicket)
    → base64_url_decoded_len t.token ≡ none
    → validate_ticket t now ≢ ok tt
unfolding validate_ticket validate_versions validate_batch_id
ticket_refused_without now t e h = ground arith

ticket_facts :
    (now : ℕ) (t : FileTicket) (n : ℕ)
    → base64_url_decoded_len t.token ≡ some n
    → validate_ticket t now ≡ ok tt
    → (t.protocol_version ≡ protocol_version)
      × (t.transfer_version ≡ file_transfer_version)
      × (valid_identifier t.batch_id max_batch_id_bytes ≡ true)
      × (t.data_port ≢ 0)
      × (min_ticket_bytes ≤ n)
      × (byte_len t.token ≤ max_ticket_text_bytes)
      × (t.expires_at_epoch_seconds ≤ max_wire_integer)
      × (now < t.expires_at_epoch_seconds)
unfolding validate_ticket validate_versions validate_batch_id
ticket_facts now t n e h = ground arith

validate_sound : (now : ℕ) (t : FileTicket) → validate_ticket t now ≡ ok tt → IsTicket now t
validate_sound now t h = elim (Option-cases (base64_url_decoded_len t.token)) [
  | inl e ↦ absurd (ticket_refused_without now t e h)
  | inr (n, e) ↦
      let f = ticket_facts now t n e h in
      let k = decoded_sound t.token n e in
      let short = subst (λ l. l ≤ max_ticket_text_bytes) (token_ascii_length t.token n k) f.5 in
      record {
        protocol = f.0;
        version = f.1;
        batch_named = (valid_identifier_iff t.batch_id max_batch_id_bytes).0 f.2;
        port = f.3;
        token = token_long t.token n k f.4 short;
        short = short;
        fits = f.6;
        fresh = f.7;
      }
]

validate_complete : (now : ℕ) (t : FileTicket) → IsTicket now t → validate_ticket t now ≡ ok tt
unfolding validate_ticket validate_versions validate_batch_id
validate_complete now t r =
    let k = long_back t.token r.token r.short in
    let e = (base64_url_decoded_len_iff t.token k.0).1 k.1 in
    let named = (valid_identifier_iff t.batch_id max_batch_id_bytes).1 r.batch_named in
    let l = token_ascii_length t.token k.0 k.1 in
    rw (r.protocol, r.version, named, e) (ground (arith, l, k.2, r.port, r.short, r.fits, r.fresh))

-- `FileTicket::validate` accepts exactly the tickets with both versions right, an identifier for the
-- batch, a port, an expiry after `now` within a signed 64-bit number, and a token of at most 128
-- characters: identifier characters and at most two equals signs, either with at least 32 bytes by
-- its length, or of one or two equals signs and nothing else.
pub validate_ticket_iff :
    (now : ℕ) (t : FileTicket) → (validate_ticket t now ≡ ok tt) ↔ IsTicket now t
validate_ticket_iff now t = (validate_sound now t, validate_complete now t)
