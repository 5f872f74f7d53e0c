-- ===== src/Agents/Web/Keys.antt =====
-- src/webagent.cpp, `handleSdpFromWeb` and `doTailingJobs`: the key that the browser puts into its
-- description is the one that its packets are decrypted with.
use media_gateway_v4_7_1_sde.Base.{
  ℕ, ◌<◌, ◌≡◌, refl, sym, ap, ◌∙◌, subst, Bool, true, some, List, [], if◌then◌else◌, length, Text,
  codes, ok, Ensures, Ensures-ok, Ensures-bind, Ensures-fault, ◌>>=◌, Option-cases, inl, inr,
  IsBytes,
}
use media_gateway_v4_7_1_sde.Text.{npos, find, contains}
use media_gateway_v4_7_1_sde.Base64.{base64_encode}
use media_gateway_v4_7_1_sde.Sdp.{
  SessionType, audio, video, Codec, codec_payload, payload, missing, endless, audio_supported,
  crypto_80, get_crypto_info,
}
use media_gateway_v4_7_1_sde.Rtp.{Srtp, Converter, inbound, outbound, policy_of, init}
use media_gateway_v4_7_1_sde.Rtp.Keys.{init_keys}
use media_gateway_v4_7_1_sde.Agents.{Effect}
use media_gateway_v4_7_1_sde.Agents.Descriptions.{handle_sdp_from_web-Returns}
use media_gateway_v4_7_1_sde.Agents.Web.{
  WebAgent, find_video_ssrc, vp8_payload, handle_sdp_from_web, web_tailing_jobs,
}
use media_gateway_v4_7_1_sde.Sdp.Keys.{with_key, crypto_found, has_crypto}

KeysSet : WebAgent → Text → Bool × SessionType × WebAgent × List Effect → Type 0
KeysSet w key r =
    (r.2.crypto_from_web ≡ key)
    × (r.2.crypto_to_web ≡ w.crypto_to_web)
    × (r.2.rtp_converter ≡ w.rtp_converter)

SameKeys : WebAgent → Bool × WebAgent → Type 0
SameKeys w r =
    (r.1.crypto_from_web ≡ w.crypto_from_web)
    × (r.1.crypto_to_web ≡ w.crypto_to_web)
    × (r.1.rtp_converter ≡ w.rtp_converter)

vp8-SameKeys :
    (sdp : Text) (stype : SessionType) (supported : Bool) (w : WebAgent)
    → Ensures (SameKeys w) (vp8_payload sdp stype supported w)
unfolding vp8_payload SameKeys
vp8-SameKeys sdp audio supported w = Ensures-ok _ (refl, refl, refl)
vp8-SameKeys sdp video supported w = at (codec_payload (codes "VP8") sdp) refl
  where
    at :
        (c : Codec)
        → codec_payload (codes "VP8") sdp ≡ c
        → Ensures (SameKeys w) (vp8_payload sdp video supported w)
    at (payload n) e = rw (vp8_payload, e) (Ensures-ok (SameKeys w) (refl, refl, refl))
    at missing e = rw (vp8_payload, e) (Ensures-ok (SameKeys w) (refl, refl, refl))
    at endless e = rw (vp8_payload, e) (Ensures-fault (SameKeys w))

-- Reading the browser's description sets the browser's key, where there is one, and nothing else
-- of the keys.
handle_sdp_from_web-KeysSet :
    (sdp : Text) (w : WebAgent)
    → Ensures
        (KeysSet w
          (if contains sdp (codes "crypto") then get_crypto_info sdp else w.crypto_from_web))
        (handle_sdp_from_web sdp w)
unfolding handle_sdp_from_web KeysSet SameKeys
handle_sdp_from_web-KeysSet sdp w = elim (Option-cases (audio_supported sdp)) [
  | inl e ↦ rw (handle_sdp_from_web, e) (Ensures-fault (KeysSet w crypto))
  | inr (supported, e) ↦
      let stype : SessionType = if contains sdp (codes "video") then video else audio in
      let w' : WebAgent = record w {
        crypto_from_web = crypto;
        video_ssrc_from_web = find_video_ssrc sdp w.video_ssrc_from_web;
      } in
      rw (handle_sdp_from_web, e)
        (Ensures-bind (KeysSet w crypto) (vp8_payload sdp stype supported w') _
          (λ r k. Ensures-ok (KeysSet w crypto) ((vp8-SameKeys sdp stype supported w').result k)))
]
  where
    crypto : Text
    crypto = if contains sdp (codes "crypto") then get_crypto_info sdp else w.crypto_from_web

-- The converter that `doTailingJobs` leaves: the key `l` outward, the key `k` inward.
abbrev pub with_sessions : List ℕ → List ℕ → Converter
with_sessions l k = record {
  session_encrypt = some (record { policy = policy_of outbound l; handled = [] });
  session_decrypt = some (record { policy = policy_of inbound k; handled = [] });
  masen = l;
  master_key = k;
  ready = true;
}

tailing_keys :
    (lib : Srtp) (k l : List ℕ) (w : WebAgent)
    → IsBytes k
    → IsBytes l
    → length k ≡ 30
    → length l ≡ 30
    → lib.srtp_create (policy_of outbound l) ≡ 0
    → lib.srtp_create (policy_of inbound k) ≡ 0
    → w.crypto_to_web ≡ base64_encode l
    → w.crypto_from_web ≡ base64_encode k
    → web_tailing_jobs lib w ≡ ok (record w { rtp_converter = with_sessions l k })
unfolding web_tailing_jobs
tailing_keys lib k l w bk bl hk hl out inb to from =
    subst
      (λ own.
        (init lib own w.crypto_from_web w.rtp_converter >>= λ r.
        ok (record w { rtp_converter = r.1 }))
        ≡ ok (record w { rtp_converter = with_sessions l k }))
      (sym to)
      (subst
        (λ key.
          (init lib (base64_encode l) key w.rtp_converter >>= λ r.
          ok (record w { rtp_converter = r.1 }))
          ≡ ok (record w { rtp_converter = with_sessions l k }))
        (sym from)
        (ap (λ m. m >>= λ r. ok (record w { rtp_converter = r.1 }))
          (init_keys lib l k w.rtp_converter bl bk hl hk out inb)))

-- Where the browser's description holds, in its first line of that suite, the encoding of a key of
-- 30 bytes, the agent's own key is the encoding of one of 30 bytes, and libsrtp makes both
-- sessions: `handleSdpFromWeb` ends, and `doTailingJobs` behind it ends with a ready converter that
-- protects with the agent's own key and takes the browser's packets with the browser's key; the
-- rest of the agent is as `handleSdpFromWeb` left it.
pub browser_key :
    (lib : Srtp) (pre post : Text) (k l : List ℕ) (w : WebAgent)
    → IsBytes k
    → IsBytes l
    → length k ≡ 30
    → length l ≡ 30
    → find (with_key pre k post) crypto_80 0 ≡ length pre
    → length (with_key pre k post) < npos
    → w.crypto_to_web ≡ base64_encode l
    → lib.srtp_create (policy_of outbound l) ≡ 0
    → lib.srtp_create (policy_of inbound k) ≡ 0
    → (r : Bool × SessionType × WebAgent × List Effect) × (handle_sdp_from_web
          (with_key pre k post)
          w
        ≡ ok r)
      × (web_tailing_jobs lib r.2 ≡ ok (record r.2 { rtp_converter = with_sessions l k }))
unfolding KeysSet
browser_key lib pre post k l w bk bl hk hl first size own out inb =
    let sdp = with_key pre k post in
    let done = handle_sdp_from_web-Returns sdp w in
    let (from, to, same) = (handle_sdp_from_web-KeysSet sdp w).result done.returned in
    let key : done.value.2.crypto_from_web ≡ base64_encode k =
      from ∙ rw (has_crypto pre k post bk first size) (crypto_found pre k post bk first size) in
    (
      done.value,
      done.returned,
      tailing_keys lib k l done.value.2 bk bl hk hl out inb (to ∙ own) key,
    )
