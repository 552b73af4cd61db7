-- ===== src/Node/Samples.antt =====
-- Simple keys, ciphers and encodings, with which the chat of two nodes can be run.
use voidnet.Base.{
  ℕ, ◌+◌, ap, Option, text_eq_iff, ◌≡◌, refl, [], ◌∷◌, ◌++◌, ◌&&◌, none, some, Text, Result, ok,
  err, codes, text_eq, text_eq_refl, arith, if◌then◌else◌,
}
use voidnet.Identity.{Bytes, Crypto, Keypair, IsSound}
use voidnet.Chat.Message.{EncryptedPayload, ChatTextPayload, ChatJson}
use voidnet.Chat.Cipher.{Ciphers, IsSoundCipher}
use voidnet.Node.Sent.{IsReadBack}

-- Keys are texts that serve as their own encoding, and a signature is the key before the payload.
abbrev pub plain_crypto : Crypto Text
plain_crypto = record {
  base64_encode = λ b. b;
  base64_decode = λ t. ok t;
  encode_protobuf = λ k. k;
  try_decode_protobuf = λ b. ok b;
  to_peer_id = λ k. k;
  key_verify = λ k payload s. text_eq s (k ++ payload);
}

abbrev pub keys_of : Text → Keypair Text
keys_of name = record { public = name; key_sign = λ payload. ok (name ++ payload) }

pub keys_of-IsSound : (name : Text) → IsSound plain_crypto (keys_of name)
keys_of-IsSound name = record {
  base64_back = λ b. refl;
  protobuf_back = λ k. refl;
  verifies = λ payload s h. ground (arith, text_eq_refl s);
}

-- A list of four and one of 32 bytes that begin with `n`.
abbrev pub four : ℕ → Bytes
four n = n ∷ n ∷ n ∷ n ∷ []

abbrev pub padded : ℕ → Bytes
padded n =
    n ∷ (0 ∷ 0 ∷ 0 ∷ (four 0 ++ (four 0 ++ (four 0 ++ (four 0 ++ (four 0 ++ (four 0 ++ four 0)))))))

abbrev pub head : Bytes → ℕ
head [] = 0
head (b ∷ bytes) = b

-- Secrets are numbers, the shared secret is their sum, and what is sealed is left as it is.
abbrev pub sums : Ciphers ℕ ℕ
sums = record {
  public_of = λ a. a;
  diffie_hellman = λ a b. (a + b) ∷ [];
  to_bytes = padded;
  from_bytes = head;
  blake3 = λ b. padded (head b);
  seal = λ key nonce plaintext. some plaintext;
  unseal = λ key nonce ciphertext. some ciphertext;
}

pub sums-IsSoundCipher : IsSoundCipher sums
sums-IsSoundCipher = record {
  agree = λ a b. ap (λ (n : ℕ). n ∷ []) omega arith;
  from_back = λ p. refl;
  to_length = λ p. refl;
  hash_length = λ b. refl;
  unseals = λ key nonce plaintext ciphertext h. cc;
}

abbrev pub twelve : ℕ → Bytes
twelve n = four n ++ (four n ++ four n)

-- Only messages outside rooms, and payloads with a fixed nonce, are written.
abbrev pub write_text : ChatTextPayload → Result Text Bytes
write_text t = elim t.room [ none ↦ ok t.body | some _ ↦ err [] ]

abbrev pub read_text : Bytes → Result Text ChatTextPayload
read_text b = ok record { room = none; body = b }

abbrev pub write_encrypted : EncryptedPayload → Result Text Bytes
write_encrypted p =
    if text_eq p.algorithm (codes "aes-256-gcm") && text_eq p.nonce (twelve 2)
    then ok p.ciphertext
    else err []

abbrev pub plain_json : ChatJson
plain_json = record {
  offer_json = λ m. ok m.nonce;
  ack_json = λ m. ok m.nonce;
  envelope_json = λ m. ok m.nonce;
  membership_json = λ m. ok m.nonce;
  snapshot_json = λ m. ok m.nonce;
  encrypted_json = write_encrypted;
  encrypted_from_json =
      λ b. ok record { algorithm = codes "aes-256-gcm"; nonce = twelve 2; ciphertext = b };
  text_json = write_text;
  text_from_json = read_text;
}

pub plain_json-IsReadBack : IsReadBack plain_json
plain_json-IsReadBack = record {
  text_back = λ t b h. text t.room t.body b h;
  encrypted_back = λ p b h.
      ground (arith, text_eq_iff p.algorithm (codes "aes-256-gcm"), text_eq_iff p.nonce (twelve 2));
}
  where
    text :
        (r : Option Text) (body b : Text)
        → write_text (record { room = r; body = body }) ≡ ok b
        → read_text b ≡ ok (record { room = r; body = body })
    text none body b h = cc
    text (some r) body b h = cc
