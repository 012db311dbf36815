-- ===== src/FileTransfer/Tokens.antt =====
-- Proofs about windows/flowtype-core/src/file_transfer.rs: which texts have a decoded
-- length as base64.
use flow_type.Prelude.{
  Text, ℕ, zero, suc, ◌-◌, ◌*◌, ◌/◌, ◌≤◌, ◌<◌, ◌≡◌, ◌≢◌, ◌↔◌, inl, inr, refl, sym, ◌∙◌, ap, subst,
  true, false, not, ◌&&◌, some, List, [], ◌∷◌, ◌++◌, arith, ◌==◌, any, all, All, is_empty, length,
  take, replicate, bytes, byte_len, Bool-cases, length-append,
}
use flow_type.FileTransfer.Messages.{
  is_identifier_byte, is_token_byte, padding_of, wrapping_sub, base64_url_decoded_len,
}
use flow_type.FileTransfer.Wire.{all-append, all-bytes, bytes-all}

padding_le : (bs : List ℕ) → padding_of bs ≤ length bs
unfolding padding_of
padding_le [] = omega arith
padding_le (b ∷ bs) = ground (arith, padding_le bs)

padding_all :
    (b : ℕ) (bs : List ℕ)
    → (padding_of bs == length bs && b == b'=') ≡ true
    → (padding_of (b ∷ bs) ≡ suc (padding_of bs)) × (length bs - padding_of bs ≡ 0) × (b ≡ b'=')
unfolding padding_of
padding_all b bs h = ground arith

padding_some :
    (b : ℕ) (bs : List ℕ)
    → (padding_of bs == length bs && b == b'=') ≡ false
    → padding_of (b ∷ bs) ≡ padding_of bs
unfolding padding_of
padding_some b bs h = ground arith

take_all : (n p : ℕ) → n - p ≡ 0 → suc n - suc p ≡ 0
take_all n p h = omega arith

take_rest : (n p b : ℕ) (bs : List ℕ) → p ≤ n → take (suc n - p) (b ∷ bs) ≡ b ∷ take (n - p) bs
take_rest n p b bs h = ap (λ k. take k (b ∷ bs)) fewer
  where
    fewer : suc n - p ≡ suc (n - p)
    fewer = omega arith

-- The bytes before the padding, and the padding.
padding_split :
    (bs : List ℕ) → take (length bs - padding_of bs) bs ++ replicate (padding_of bs) b'=' ≡ bs
unfolding padding_of
padding_split [] = refl
padding_split (b ∷ bs) = elim (Bool-cases (padding_of bs == length bs && b == b'=')) [
  | inl e ↦
      let a = padding_all b bs e in
      let ih =
        subst (λ k. take k bs ++ replicate (padding_of bs) b'=' ≡ bs) a.1 (padding_split bs) in
      subst (λ k. take (suc (length bs) - k) (b ∷ bs) ++ replicate k b'=' ≡ b ∷ bs) (sym a.0)
        (subst (λ k. take k (b ∷ bs) ++ b'=' ∷ replicate (padding_of bs) b'=' ≡ b ∷ bs)
          (sym (take_all (length bs) (padding_of bs) a.1))
          (ap (λ r. b'=' ∷ r) ih ∙ ap (λ c. c ∷ bs) (sym a.2)))
  | inr e ↦
      subst (λ k. take (suc (length bs) - k) (b ∷ bs) ++ replicate k b'=' ≡ b ∷ bs)
        (sym (padding_some b bs e))
        (rw (take_rest (length bs) (padding_of bs) b bs (padding_le bs))
          (ap (λ r. b ∷ r) (padding_split bs)))
]

pub length-replicate : (n : ℕ) → length (replicate {A = ℕ} n b'=') ≡ n
length-replicate zero = refl
length-replicate (suc n) = omega (arith, length-replicate n)

padding-replicate : (n : ℕ) → padding_of (replicate n b'=') ≡ n
unfolding padding_of
padding-replicate zero = refl
padding-replicate (suc n) = ground (arith, padding-replicate n, length-replicate n)

take-append_left : (s t : List ℕ) → take (length s) (s ++ t) ≡ s
take-append_left [] t = refl
take-append_left (x ∷ s) t = ap (λ r. x ∷ r) (take-append_left s t)

padding-body :
    (body : Text) (n : ℕ)
    → All (λ c. is_identifier_byte c ≡ true) body
    → padding_of (body ++ replicate n b'=') ≡ n
unfolding padding_of
padding-body [] n h = padding-replicate n
padding-body (c ∷ body) n h = ground (arith, padding-body body n h.1)

token_ascii : (b : ℕ) → is_token_byte b ≡ true → b < 128
token_ascii b h = ground arith

-- A token: identifier characters, then at most two equals signs, and not nothing at all.
pub record IsToken (s : Text) (n : ℕ) : Type 0 where
  pub body : Text
  pub padding : ℕ
  pub is : s ≡ body ++ replicate padding b'='
  pub plain : All (λ c. is_identifier_byte c ≡ true) body
  pub padded : padding ≤ 2
  pub something : s ≢ []
  pub decoded : n ≡ wrapping_sub (length s * 3 / 4) padding

token_bytes : (s : List ℕ) → any (λ b. not (is_token_byte b)) s ≡ false → all is_token_byte s ≡ true
token_bytes [] h = refl
token_bytes (c ∷ s) h = ground (arith, token_bytes s)

body_plain :
    (s : List ℕ)
    → all is_token_byte s ≡ true
    → any (λ b. b == b'=') s ≡ false
    → All (λ c. is_identifier_byte c ≡ true) s
body_plain [] h k = tt
body_plain (c ∷ s) h k = ground (arith, body_plain s)

any-take : (n : ℕ) (s : List ℕ) → all is_token_byte s ≡ true → all is_token_byte (take n s) ≡ true
any-take zero s h = refl
any-take (suc n) [] h = refl
any-take (suc n) (c ∷ s) h = ground (arith, any-take n s)

-- The facts behind a length that is returned.
decoded_facts :
    (s : Text) (n : ℕ)
    → base64_url_decoded_len s ≡ some n
    → (is_empty s ≡ false)
      × (any (λ b. not (is_token_byte b)) (bytes s) ≡ false)
      × (padding_of (bytes s) ≤ 2)
      × (any (λ b. b == b'=') (take (byte_len s - padding_of (bytes s)) (bytes s)) ≡ false)
      × (n ≡ wrapping_sub (byte_len s * 3 / 4) (padding_of (bytes s)))
unfolding base64_url_decoded_len
decoded_facts s n h = ground arith

pub decoded_sound : (s : Text) (n : ℕ) → base64_url_decoded_len s ≡ some n → IsToken s n
decoded_sound s n h =
    let facts = decoded_facts s n h in
    let bs = bytes s in
    let clean = token_bytes bs facts.1 in
    let plain =
      bytes-all is_token_byte token_ascii s (sym (all-bytes is_token_byte token_ascii s) ∙ clean) in
    record {
      body = take (length bs - padding_of bs) bs;
      padding = padding_of bs;
      is = sym plain ∙ sym (padding_split bs);
      plain = body_plain (take (length bs - padding_of bs) bs) (any-take _ bs clean) facts.3;
      padded = facts.2;
      something = ground (arith, facts.0);
      decoded = facts.4 ∙ ap (λ t. wrapping_sub (length t * 3 / 4) (padding_of bs)) plain;
    }

decoded_back :
    (s : Text) (n : ℕ)
    → bytes s ≡ s
    → padding_of s ≡ n
    → is_empty s ≡ false
    → any (λ b. not (is_token_byte b)) s ≡ false
    → n ≤ 2
    → any (λ b. b == b'=') (take (length s - n) s) ≡ false
    → base64_url_decoded_len s ≡ some (wrapping_sub (length s * 3 / 4) n)
unfolding base64_url_decoded_len
decoded_back s n q p e c l b = rw (q, p, e, c, b) (ground arith)

plain_tokens :
    (s : List ℕ)
    → All (λ c. is_identifier_byte c ≡ true) s
    → (all is_token_byte s ≡ true) × (any (λ b. b == b'=') s ≡ false)
plain_tokens [] h = (refl, refl)
plain_tokens (c ∷ s) h = ground (arith, plain_tokens s)

replicate_tokens : (n : ℕ) → all is_token_byte (replicate n b'=') ≡ true
replicate_tokens zero = refl
replicate_tokens (suc n) = replicate_tokens n

no_others : (s : List ℕ) → all is_token_byte s ≡ true → any (λ b. not (is_token_byte b)) s ≡ false
no_others [] h = refl
no_others (c ∷ s) h = ground (arith, no_others s)

nonempty : (s : Text) → s ≢ [] → is_empty s ≡ false
nonempty [] n = absurd (n refl)
nonempty (c ∷ s) n = refl

module _ (body : Text) (n : ℕ) (h : All (λ c. is_identifier_byte c ≡ true) body) where
  tokens_padded : all is_token_byte (body ++ replicate n b'=') ≡ true
  tokens_padded =
      all-append is_token_byte body (replicate n b'=')
      ∙ rw ((plain_tokens body h).0, replicate_tokens n) refl

  pub bytes_padded : bytes (body ++ replicate n b'=') ≡ body ++ replicate n b'='
  bytes_padded = bytes-all is_token_byte token_ascii _ tokens_padded

  body_length : length (body ++ replicate n b'=') - n ≡ length body
  body_length = omega (arith, length-append body (replicate n b'='), length-replicate n)

  body_taken : take (length (body ++ replicate n b'=') - n) (body ++ replicate n b'=') ≡ body
  body_taken = rw body_length (take-append_left body (replicate n b'='))

  decoded_padded :
      body ++ replicate n b'=' ≢ []
      → n ≤ 2
      → base64_url_decoded_len (body ++ replicate n b'=')
        ≡ some (wrapping_sub (length (body ++ replicate n b'=') * 3 / 4) n)
  decoded_padded e p =
      decoded_back (body ++ replicate n b'=') n bytes_padded (padding-body body n h)
        (nonempty (body ++ replicate n b'=') e) (no_others (body ++ replicate n b'=') tokens_padded)
        p (rw body_taken (plain_tokens body h).1)

-- A text has a decoded length exactly when it is a token, and then it is the length of a token.
pub base64_url_decoded_len_iff :
    (s : Text) (n : ℕ) → (base64_url_decoded_len s ≡ some n) ↔ IsToken s n
base64_url_decoded_len_iff s n = (decoded_sound s n, back)
  where
    back : IsToken s n → base64_url_decoded_len s ≡ some n
    back t =
        subst (λ r. base64_url_decoded_len r ≡ some (wrapping_sub (length r * 3 / 4) t.padding))
          (sym t.is)
          (decoded_padded t.body t.padding t.plain (λ e. t.something (t.is ∙ e)) t.padded)
        ∙ ap some (sym t.decoded)
