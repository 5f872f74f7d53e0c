-- ===== src/Rtp.antt =====
-- src/rtpconverter.cpp: the SRTP sessions of a web agent, and the keys they are made from.
-- libsrtp (include/libsrtp/) is another project's library: its calls are the fields of `Srtp`.
pub mod Keys
use media_gateway_v4_7_1_sde.Base.{
  ℕ, ◌+◌, ◌-◌, ◌%◌, ◌/◌, ◌*◌, Bool, true, false, Option, none, some, List, [], ◌∷◌, ◌++◌, ltb, leb,
  ◌==◌, if◌then◌else◌, length, get_or, set, replicate, Text, Run, ok, fault, Fault, buffer_overflow,
  ◌>>=◌,
}
use media_gateway_v4_7_1_sde.Base64.{base64_decode}

-- `ssrc_any_outbound`, `ssrc_any_inbound`
pub data Direction : Type 0 where
  outbound inbound : Direction

-- What `init` sets of a `srtp_policy_t`. Both `rtp` and `rtcp` are set by
-- `crypto_policy_set_aes_cm_128_hmac_sha1_80`, and `next` is NULL.
pub record Policy : Type 0 where
  pub direction : Direction
  pub key : List ℕ
  pub window_size : ℕ
  pub allow_repeat_tx : ℕ

-- A `srtp_t`: the policy it was made from and the packets that it has handled, latest first.
pub record Stream : Type 0 where
  pub policy : Policy
  pub handled : List (List ℕ)

-- The library's calls: a status, 0 for `err_status_ok`, and the buffer that a call leaves.
pub record Srtp : Type 0 where
  pub srtp_create : Policy → ℕ
  pub srtp_protect : Stream → List ℕ → ℕ × List ℕ
  pub srtp_unprotect : Stream → List ℕ → ℕ × List ℕ
  pub srtp_protect_rtcp : Stream → List ℕ → ℕ × List ℕ

abbrev pub master_key_len : ℕ
master_key_len = 30

-- `class RTPConverter`. A stream that was never created is `none`.
pub record Converter : Type 0 where
  pub session_encrypt : Option Stream
  pub session_decrypt : Option Stream
  pub masen : List ℕ
  pub master_key : List ℕ
  pub ready : Bool

-- The constructor leaves the arrays as they are.
unfoldable pub new_converter : List ℕ → List ℕ → Converter
new_converter a b = record {
  session_encrypt = none;
  session_decrypt = none;
  masen = a;
  master_key = b;
  ready = false;
}

-- `memset(array, 0, ...)`, then `memcpy(array, key.c_str(), key.size())`.
unfoldable pub copy_key : List ℕ → Run (List ℕ)
copy_key key =
    if leb (length key) master_key_len
    then ok (key ++ replicate (master_key_len - length key) 0)
    else fault buffer_overflow

abbrev pub policy_of : Direction → List ℕ → Policy
policy_of d key = record { direction = d; key = key; window_size = 1024; allow_repeat_tx = 1 }

module _ (lib : Srtp) where
  open lib use {srtp_create, srtp_protect, srtp_unprotect, srtp_protect_rtcp}

  -- The second half of `init`.
  init_decrypt : Text → Converter → Run (ℕ × Converter)
  init_decrypt dekey c = do
    key ← copy_key (base64_decode dekey)
    let policy = policy_of inbound key
    let status = srtp_create policy
    let c' : Converter = record c {
      master_key = key;
      session_decrypt =
          if status == 0
          then some (record { policy = policy; handled = [] })
          else c.session_decrypt;
    }
    if status == 0 then ok (0, record c' { ready = true }) else ok (status, c')

  unfoldable pub init : Text → Text → Converter → Run (ℕ × Converter)
  unfolding init_decrypt
  init enkey dekey c = do
    key ← copy_key (base64_decode enkey)
    let policy = policy_of outbound key
    let status = srtp_create policy
    let c' : Converter = record c {
      masen = key;
      session_encrypt =
          if status == 0
          then some (record { policy = policy; handled = [] })
          else c.session_encrypt;
    }
    if status == 0 then init_decrypt dekey c' else ok (status, c')

  -- A call on a session that was never created has no defined result: `null_pointer`.
  abbrev use_stream :
      (Stream → List ℕ → ℕ × List ℕ) → Option Stream → List ℕ → Run (Stream × ℕ × List ℕ)
  use_stream call none buffer = fault Fault.null_pointer
  use_stream call (some s) buffer =
      let (status, buffer') = call s buffer in
      ok (record s { handled = buffer ∷ s.handled }, status, buffer')

  unfoldable pub encrypt_data : List ℕ → Converter → Run (ℕ × List ℕ × Converter)
  encrypt_data buffer c = do
    (s, status, buffer') ← use_stream srtp_protect c.session_encrypt buffer
    ok (status, buffer', record c { session_encrypt = some s })

  unfoldable pub decrypt_data : List ℕ → Converter → Run (ℕ × List ℕ × Converter)
  decrypt_data buffer c = do
    (s, status, buffer') ← use_stream srtp_unprotect c.session_decrypt buffer
    ok (status, buffer', record c { session_decrypt = some s })

  unfoldable pub encrypt_rtcp : List ℕ → Converter → Run (ℕ × List ℕ × Converter)
  encrypt_rtcp buffer c = do
    (s, status, buffer') ← use_stream srtp_protect_rtcp c.session_encrypt buffer
    ok (status, buffer', record c { session_encrypt = some s })

-- The destructor: the sessions that it hands to `srtp_dealloc`.
unfoldable pub delete_converter : Converter → List (Option Stream)
delete_converter c = if c.ready then c.session_decrypt ∷ c.session_encrypt ∷ [] else []
