-- ===== src/FileTransfer/Wire.antt =====
-- Proofs about windows/flowtype-core/src/file_transfer.rs: what the `validate` methods let through,
-- in terms of the characters of the texts.
use flow_type.Prelude.{
  Text, ℕ, ◌+◌, ◌/◌, ◌≤◌, ◌<◌, ◌≡◌, ◌≢◌, ◌↔◌, ◌⊎◌, refl, sym, subst, Bool, true, false, ◌&&◌, List,
  [], ◌∷◌, ◌++◌, arith, any, all, All, is_empty, length, bytes, byte_len, utf8, text_eq_iff,
}
use flow_type.Protocol.{protocol_version}
use flow_type.FileTransfer.{
  ok, file_transfer_version, max_phone_id_bytes, max_batch_id_bytes, max_root_summaries,
  max_root_summary_bytes, max_wire_integer,
}
use flow_type.FileTransfer.Paths.{is_control}
use flow_type.FileTransfer.Messages.{
  FileOffer, is_identifier_byte, is_ascii_hexdigit, valid_identifier, valid_sha256,
  validate_versions, refused_root, validate_offer,
}

pub all-append : (p : ℕ → Bool) (xs ys : List ℕ) → all p (xs ++ ys) ≡ (all p xs && all p ys)
all-append p [] ys = refl
all-append p (x ∷ xs) ys = ground (arith, all-append p xs ys)

-- A test that only ASCII bytes pass: a text's bytes pass it exactly when its characters do, and
-- then there are as many bytes as characters.
module _ (p : ℕ → Bool) (ascii : (b : ℕ) → p b ≡ true → b < 128) where
  all-utf8 : (c : ℕ) → all p (utf8 c) ≡ p c
  unfolding utf8
  all-utf8 c =
      ground
        (arith, ascii c, ascii (192 + c / 64), ascii (224 + c / 4096), ascii (240 + c / 262144))

  pub all-bytes : (s : Text) → all p (bytes s) ≡ all p s
  all-bytes [] = refl
  all-bytes (c ∷ s) = ground (arith, all-append p (utf8 c) (bytes s), all-utf8 c, all-bytes s)

  utf8-passes : (c : ℕ) → p c ≡ true → utf8 c ≡ c ∷ []
  unfolding utf8
  utf8-passes c h = ground (arith, ascii c)

  pub bytes-all : (s : Text) → all p s ≡ true → bytes s ≡ s
  bytes-all [] h = refl
  bytes-all (c ∷ s) h = rw (utf8-passes c (ground arith), bytes-all s (ground arith)) refl

pub all_iff : (p : ℕ → Bool) (s : Text) → (all p s ≡ true) ↔ All (λ c. p c ≡ true) s
all_iff p [] = ground arith
all_iff p (c ∷ s) = ground (arith, all_iff p s)

identifier_ascii : (b : ℕ) → is_identifier_byte b ≡ true → b < 128
identifier_ascii b h = ground arith

hex_ascii : (b : ℕ) → is_ascii_hexdigit b ≡ true → b < 128
hex_ascii b h = ground arith

-- Named, of at most `longest` characters, each a letter, a digit, a dash or an underscore of ASCII.
abbrev pub IsIdentifier : ℕ → Text → Type 0
IsIdentifier longest s = (s ≢ []) × (length s ≤ longest) × All (λ c. is_identifier_byte c ≡ true) s

abbrev pub IsSha256 : Text → Type 0
IsSha256 s = (length s ≡ 64) × All (λ c. is_ascii_hexdigit c ≡ true) s

pub is_empty_iff : (t : Text) → (is_empty t ≡ true) ↔ (t ≡ [])
is_empty_iff [] = ground arith
is_empty_iff (x ∷ xs) = ground arith

pub valid_identifier_iff :
    (s : Text) (longest : ℕ) → (valid_identifier s longest ≡ true) ↔ IsIdentifier longest s
unfolding valid_identifier
valid_identifier_iff s longest = ground (
  arith,
  is_empty_iff s,
  all_iff is_identifier_byte s,
  all-bytes is_identifier_byte identifier_ascii s,
  bytes-all is_identifier_byte identifier_ascii s,
)

pub valid_sha256_iff : (s : Text) → (valid_sha256 s ≡ true) ↔ IsSha256 s
unfolding valid_sha256
valid_sha256_iff s = ground (
  arith,
  all_iff is_ascii_hexdigit s,
  all-bytes is_ascii_hexdigit hex_ascii s,
  bytes-all is_ascii_hexdigit hex_ascii s,
)

validate_versions_iff :
    (p t : ℕ)
    → (validate_versions p t ≡ ok tt) ↔ ((p ≡ protocol_version) × (t ≡ file_transfer_version))
unfolding validate_versions
validate_versions_iff p t = ground arith

abbrev pub IsRoot : Text → Type 0
IsRoot root = (root ≢ []) × (byte_len root ≤ max_root_summary_bytes) × (any is_control root ≡ false)

roots_iff : (roots : List Text) → (any refused_root roots ≡ false) ↔ All IsRoot roots
roots_iff [] = ground arith
roots_iff (r ∷ rest) = ground (arith, is_empty_iff r, roots_iff rest)

-- What the wire contract asks of an offer from an authenticated phone.
pub record IsOffer (phone : Text) (o : FileOffer) : Type 0 where
  pub protocol : o.protocol_version ≡ protocol_version
  pub version : o.transfer_version ≡ file_transfer_version
  pub from_phone : o.phone_id ≡ phone
  pub phone_named : IsIdentifier max_phone_id_bytes phone
  pub batch_named : IsIdentifier max_batch_id_bytes o.batch_id
  pub something : (o.file_count ≢ 0) ⊎ (o.directory_count ≢ 0)
  pub files : o.file_count ≤ max_wire_integer
  pub directories : o.directory_count ≤ max_wire_integer
  pub total : o.total_bytes ≤ max_wire_integer
  pub few_roots : length o.roots ≤ max_root_summaries
  pub roots : All IsRoot o.roots

module _ (phone : Text) (o : FileOffer) where
  validate_sound : validate_offer o phone ≡ ok tt → IsOffer phone o
  unfolding validate_offer validate_versions
  validate_sound h =
      let named = (text_eq_iff o.phone_id phone).0 (ground arith) in
      record {
        protocol = ground arith;
        version = ground arith;
        from_phone = named;
        phone_named =
            (valid_identifier_iff phone max_phone_id_bytes).0
              (subst (λ t. valid_identifier t max_phone_id_bytes ≡ true) named (ground arith));
        batch_named = (valid_identifier_iff o.batch_id max_batch_id_bytes).0 (ground arith);
        something = ground arith;
        files = ground arith;
        directories = ground arith;
        total = ground arith;
        few_roots = ground arith;
        roots = (roots_iff o.roots).0 (ground arith);
      }

  validate_complete : IsOffer phone o → validate_offer o phone ≡ ok tt
  unfolding validate_offer validate_versions
  validate_complete r =
      let named = (text_eq_iff o.phone_id phone).1 r.from_phone in
      let from_phone =
        subst (λ t. valid_identifier t max_phone_id_bytes ≡ true) (sym r.from_phone)
          ((valid_identifier_iff phone max_phone_id_bytes).1 r.phone_named) in
      let batch = (valid_identifier_iff o.batch_id max_batch_id_bytes).1 r.batch_named in
      let roots = (roots_iff o.roots).1 r.roots in
      rw (r.protocol, r.version, named, from_phone, batch, roots)
        (ground (arith, r.something, r.files, r.directories, r.total, r.few_roots))

-- `FileOffer::validate` accepts exactly the offers of the wire contract: both versions right, sent in
-- the name of the authenticated phone, with identifiers for phone and batch, at least one file or
-- directory, counts and total within a signed 64-bit number, and at most eight root names of at most
-- 255 bytes without control characters.
pub validate_offer_iff :
    (phone : Text) (o : FileOffer) → (validate_offer o phone ≡ ok tt) ↔ IsOffer phone o
validate_offer_iff phone o = (validate_sound phone o, validate_complete phone o)
