-- ===== src/Session/Media/Forged.antt =====
-- src/webagent.cpp, `receiveDataCallback`: the status that libsrtp returns for a packet is dropped.
use media_gateway_v4_7_1_sde.Base.{
  ℕ, zero, suc, ◌≤◌, ◌≡◌, refl, ◌∙◌, ap, true, false, some, List, [], ◌∷◌, ◌++◌, length, take, drop,
  set, get_or, ok, le→leb, arith, eq_ℤ, pos, wrap, ◌^◌, take-append_length, ==_refl, eq→==, subst,
  ℤ,
}
use media_gateway_v4_7_1_sde.Text.{atoi}
use media_gateway_v4_7_1_sde.Rtp.{Srtp, Stream, decrypt_data}
use media_gateway_v4_7_1_sde.RtpHeader.{payload, set_payload, set_ssrc}
use media_gateway_v4_7_1_sde.Agents.{bump, to_ims_audio}
use media_gateway_v4_7_1_sde.Agents.Ims.{ImsAgent, send_ims}
use media_gateway_v4_7_1_sde.Agents.Codec.{CodecConverter}
use media_gateway_v4_7_1_sde.Agents.Web.{WebAgent}
use media_gateway_v4_7_1_sde.Agents.Web.Data.{
  Statics, is_closed, receive_data, decrypt_in, write_back,
}

take-set : (n : ℕ) (xs : List ℕ) (i v : ℕ) → take n (set xs i v) ≡ set (take n xs) i v
take-set zero [] i v = refl
take-set zero (x ∷ xs) zero v = refl
take-set zero (x ∷ xs) (suc i) v = refl
take-set (suc n) [] i v = refl
take-set (suc n) (x ∷ xs) zero v = refl
take-set (suc n) (x ∷ xs) (suc i) v = ap (◌∷◌ x) (take-set n xs i v)

get_or-take : (n : ℕ) (xs : List ℕ) → 2 ≤ n → get_or (take n xs) 1 0 ≡ get_or xs 1 0
get_or-take zero xs h = absurd (omega arith)
get_or-take (suc zero) xs h = absurd (omega arith)
get_or-take (suc (suc n)) [] h = refl
get_or-take (suc (suc n)) (x ∷ []) h = refl
get_or-take (suc (suc n)) (x ∷ y ∷ xs) h = refl

take-set_ssrc : (n k : ℕ) (xs : List ℕ) → take n (set_ssrc k xs) ≡ set_ssrc k (take n xs)
unfolding set_ssrc
take-set_ssrc n k xs = simp take-set

take-set_payload :
    (n k : ℕ) (xs : List ℕ) → 2 ≤ n → take n (set_payload k xs) ≡ set_payload k (take n xs)
unfolding set_payload
take-set_payload n k xs h = take-set n xs 1 _ ∙ rw (get_or-take n xs h)

eq_ℤ-pos : (n : ℕ) (z : ℤ) → pos n ≡ z → eq_ℤ (pos n) z ≡ true
eq_ℤ-pos n z e = subst (λ (y : ℤ). eq_ℤ (pos n) y ≡ true) e (==_refl n)

-- The fields that `sendData` sets of a packet at the beginning of an array.
take-sent :
    (k n : ℕ) (packet rest : List ℕ)
    → 2 ≤ length packet
    → take (length packet) (set_payload k (set_ssrc n (packet ++ rest)))
      ≡ set_payload k (set_ssrc n packet)
take-sent k n packet rest h =
    take-set_payload (length packet) k (set_ssrc n (packet ++ rest)) h
    ∙ ap (set_payload k) (
        take-set_ssrc (length packet) n (packet ++ rest)
        ∙ ap (set_ssrc n) (take-append_length packet rest))

module _ (lib : Srtp) (s : Stream) where
  -- A packet of the audio's payload type that the browser sends to a session that is ready goes to
  -- the IMS with the gateway's own source and payload type, as libsrtp has left it, whatever status
  -- libsrtp gives it: also one that it could not authenticate. What libsrtp leaves must fit the
  -- array and have two bytes.
  pub receive_data-audio :
      (unset : ℕ) (buf : List ℕ) (len : ℕ) (ims : ImsAgent) (codec : CodecConverter) (st : Statics)
      (w : WebAgent) (status : ℕ) (packet : List ℕ)
      → is_closed w ≡ false
      → get_or buf 0 0 ≡ 0x80
      → pos (payload buf) ≡ w.a_payload
      → w.rtp_converter.session_decrypt ≡ some s
      → lib.srtp_unprotect s (take len buf) ≡ (status, packet)
      → length packet ≤ length buf
      → 2 ≤ length packet
      → (w' : WebAgent) × (w'.curcnt ≡ bump w.curcnt)
        × (receive_data lib unset 1 buf len ims codec st w
            ≡ ok (
              st,
              w',
              to_ims_audio (
                    set_payload
                      (wrap 128 ims.a_payload)
                      (set_ssrc (wrap (2 ^ 32) (atoi ims.audio_ssrc)) packet))
                  ∷ [],
            ))
  unfolding receive_data decrypt_in decrypt_data write_back send_ims
  receive_data-audio unset buf len ims codec st w status packet ready first audio session made fits
        long =
      (
        record w {
          curcnt = bump w.curcnt;
          rtp_converter = record w.rtp_converter {
            session_decrypt = some (record s { handled = take len buf ∷ s.handled });
          };
        },
        refl,
        rw (ready, eq→== (get_or buf 0 0) 0x80 first, eq_ℤ-pos (payload buf) w.a_payload audio)
            (rw (session, made, le→leb (length packet) (length buf) fits)
              (rw (
                take-sent (wrap 128 ims.a_payload) (wrap (2 ^ 32) (atoi ims.audio_ssrc)) packet
                  (drop (length packet) buf) long))),
      )
