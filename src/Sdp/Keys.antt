-- ===== src/Sdp/Keys.antt =====
-- `WebAgent::getCryptoInfo` of src/webagent.cpp on a description that has a key.
use media_gateway_v4_7_1_sde.Base.{
  ℕ, ◌+◌, ◌<◌, ◌≡◌, ◌≢◌, refl, ap, subst, true, some, List, [], ◌∷◌, ◌++◌, length, take, drop, Text,
  codes, arith, append_assoc, length-append, IsBytes, ne→==,
}
use media_gateway_v4_7_1_sde.Text.{npos, find, contains, crlf}
use media_gateway_v4_7_1_sde.Base64.{base64_encode}
use media_gateway_v4_7_1_sde.Base64.Bits.{sextets_of}
use media_gateway_v4_7_1_sde.Base64.Reference.{
  rfc_char, rfc_chars, rfc4648, base64_encode-eq-rfc4648,
}
use media_gateway_v4_7_1_sde.Sdp.{crypto_80, param, get_crypto_info}
use media_gateway_v4_7_1_sde.Text.Lines.{
  NoCr, NoCr-append, NoCr-take, contains_found, find_end, substr_key, minus_add, drop_behind,
}

rfc_char-ne_cr : (v : ℕ) → rfc_char v ≢ 13
unfolding rfc_char
rfc_char-ne_cr v = ground arith

rfc_chars-NoCr : (vs : List ℕ) → NoCr (rfc_chars vs)
unfolding rfc_chars
rfc_chars-NoCr [] = tt
rfc_chars-NoCr (v ∷ vs) = (rfc_char-ne_cr v, rfc_chars-NoCr vs)

rfc4648-NoCr : (bytes : List ℕ) → NoCr (rfc4648 bytes)
unfolding rfc4648
rfc4648-NoCr [] = tt
rfc4648-NoCr (a ∷ []) =
    NoCr-append (take 2 (rfc_chars (sextets_of a 0 0))) (61 ∷ 61 ∷ [])
      (NoCr-take 2 (rfc_chars (sextets_of a 0 0)) (rfc_chars-NoCr (sextets_of a 0 0))) (omega arith)
rfc4648-NoCr (a ∷ b ∷ []) =
    NoCr-append (take 3 (rfc_chars (sextets_of a b 0))) (61 ∷ [])
      (NoCr-take 3 (rfc_chars (sextets_of a b 0)) (rfc_chars-NoCr (sextets_of a b 0))) (omega arith)
rfc4648-NoCr (a ∷ b ∷ c ∷ rest) =
    NoCr-append (rfc_chars (sextets_of a b c)) (rfc4648 rest) (rfc_chars-NoCr (sextets_of a b c))
      (rfc4648-NoCr rest)

-- A text that stands behind the tag's first place, up to the line's end, is what the scan finds.
pub param_at :
    (tag key post sdp : Text) (b : ℕ)
    → find sdp tag 0 ≡ b
    → drop (b + length tag) sdp ≡ key ++ (crlf ++ post)
    → b + length tag + length key < npos
    → NoCr key
    → param tag crlf sdp ≡ some key
unfolding param
param_at tag key post sdp b first behind small clean =
    rw
      (
        first,
        ne→== b npos (omega arith),
        find_end sdp key post (b + length tag) behind clean,
        ne→== (b + length tag + length key) npos (omega arith),
        minus_add (b + length tag) (length key) (omega arith),
      )
      (ap some (substr_key sdp key post (b + length tag) behind))

-- A description that has a key in its first line of that suite.
abbrev pub with_key : Text → List ℕ → Text → Text
with_key pre k post = pre ++ (crypto_80 ++ (base64_encode k ++ (crlf ++ post)))

base64_encode-NoCr : (k : List ℕ) → IsBytes k → NoCr (base64_encode k)
base64_encode-NoCr k h = rw (base64_encode-eq-rfc4648 k h) (rfc4648-NoCr k)

module _ (pre : Text) (k : List ℕ) (post : Text) (bytes : IsBytes k)
    (first : find (with_key pre k post) crypto_80 0 ≡ length pre)
    (size : length (with_key pre k post) < npos) where
  key_inside : length pre + length crypto_80 + length (base64_encode k) < npos
  key_inside =
      let a = length-append pre (crypto_80 ++ (base64_encode k ++ (crlf ++ post))) in
      let b = length-append crypto_80 (base64_encode k ++ (crlf ++ post)) in
      let c = length-append (base64_encode k) (crlf ++ post) in omega (arith, a, b, c)

  pub crypto_found : get_crypto_info (with_key pre k post) ≡ base64_encode k
  unfolding get_crypto_info
  crypto_found =
      rw
        (
          get_crypto_info,
          param_at crypto_80 (base64_encode k) post (with_key pre k post) (length pre) first
              (drop_behind pre crypto_80 (base64_encode k ++ (crlf ++ post))) key_inside
              (base64_encode-NoCr k bytes),
        )
        refl

  pub has_crypto : contains (with_key pre k post) (codes "crypto") ≡ true
  has_crypto =
      let a = length-append pre (codes "a=") in
      let found =
        contains_found (codes "crypto") (pre ++ codes "a=")
          (codes ":1 AES_CM_128_HMAC_SHA1_80 inline:" ++ (base64_encode k ++ (crlf ++ post)))
          (omega (arith, key_inside, a)) in
      subst (λ t. contains t (codes "crypto") ≡ true) (append_assoc pre (codes "a=") _) found
