-- ===== src/Rtp/Keys.antt =====
-- src/rtpconverter.cpp, `init`: which keys the two sessions get, and which texts overflow.
use media_gateway_v4_7_1_sde.Base.{
  ℕ, ◌<◌, ◌≤◌, ◌≡◌, ◌↔◌, ◌⊎◌, ap, true, some, List, [], ◌++◌, append-nil, arith, length, replicate,
  Text, IsBytes, ok, fault, buffer_overflow, eq→==, ◌-◌,
}
use media_gateway_v4_7_1_sde.Base64.{base64_encode, base64_decode}
use media_gateway_v4_7_1_sde.Base64.RoundTrip.{decode-encode}
use media_gateway_v4_7_1_sde.Rtp.{inbound, outbound, Srtp, Converter, init, copy_key, policy_of}

copy_key_whole : (key : List ℕ) → length key ≡ 30 → copy_key key ≡ ok key
unfolding copy_key
copy_key_whole key h = rw (h) (ap ok (append-nil key))

module _ (lib : Srtp) where
  open lib use {srtp_create}

  -- With two texts that encode keys of 30 bytes, and a library that makes both sessions, `init`
  -- returns 0: the outbound session has exactly the bytes of the first key, the inbound session
  -- those of the second, neither has handled a packet, and the converter is ready.
  pub init_keys :
      (k l : List ℕ) (c : Converter)
      → IsBytes k
      → IsBytes l
      → length k ≡ 30
      → length l ≡ 30
      → srtp_create (policy_of outbound k) ≡ 0
      → srtp_create (policy_of inbound l) ≡ 0
      → init lib (base64_encode k) (base64_encode l) c
        ≡ ok (
          0,
          record {
            session_encrypt = some (record { policy = policy_of outbound k; handled = [] });
            session_decrypt = some (record { policy = policy_of inbound l; handled = [] });
            masen = k;
            master_key = l;
            ready = true;
          },
        )
  unfolding init
  init_keys k l c bk bl hk hl ck cl =
      rw (decode-encode k bk, copy_key_whole k hk)
        (rw
          (eq→== (srtp_create (policy_of outbound k)) 0 ck, decode-encode l bl, copy_key_whole l hl)
          (rw (eq→== (srtp_create (policy_of inbound l)) 0 cl)))

  -- `init` writes past the end of a key array exactly when the first text decodes to more than 30
  -- bytes, or the first session is made and the second text decodes to more than 30 bytes.
  pub init_overflow :
      (en de : Text) (c : Converter)
      → (init lib en de c ≡ fault buffer_overflow) ↔ (
          (30 < length (base64_decode en))
          ⊎ ((length (base64_decode en) ≤ 30)
              × (srtp_create (
                    policy_of outbound
                      (base64_decode en ++ replicate (30 - length (base64_decode en)) 0))
                  ≡ 0)
              × (30 < length (base64_decode de))))
  unfolding init copy_key
  init_overflow en de c = ground arith
