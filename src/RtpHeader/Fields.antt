-- ===== src/RtpHeader/Fields.antt =====
-- include/rtpdefine.h: a field that is set reads as it was set, and leaves the others.
use media_gateway_v4_7_1_sde.Base.{ℕ, ◌%◌, ◌≤◌, ◌≡◌, refl, ◌∙◌, List, [], ◌∷◌, length, be32, arith}
use media_gateway_v4_7_1_sde.RtpHeader.{payload, marker, set_payload, ssrc, set_ssrc}

-- In a packet that has a second byte, setting the payload type keeps the marker bit, the source
-- and the length, and the payload type is then the low seven bits of what was set.
set_payload_lem :
    (v : ℕ) (packet : List ℕ)
    → 2 ≤ length packet
    → (payload (set_payload v packet) ≡ v % 128)
      × (marker (set_payload v packet) ≡ marker packet)
      × (ssrc (set_payload v packet) ≡ ssrc packet)
      × (length (set_payload v packet) ≡ length packet)
unfolding payload marker set_payload ssrc
set_payload_lem v [] h = absurd (omega arith)
set_payload_lem v (a ∷ []) h = absurd (omega arith)
set_payload_lem v (a ∷ b ∷ rest) h = (omega arith, omega arith, refl, refl)

-- In a packet of twelve bytes or more, the source that was set is read back, in network order, and
-- payload type, marker bit and length stay.
set_ssrc_lem :
    (n : ℕ) (packet : List ℕ)
    → 12 ≤ length packet
    → (ssrc (set_ssrc n packet) ≡ be32 n)
      × (payload (set_ssrc n packet) ≡ payload packet)
      × (marker (set_ssrc n packet) ≡ marker packet)
      × (length (set_ssrc n packet) ≡ length packet)
unfolding payload marker set_ssrc ssrc
set_ssrc_lem n [] h = absurd (omega arith)
set_ssrc_lem n (a ∷ []) h = absurd (omega arith)
set_ssrc_lem n (a ∷ b ∷ []) h = absurd (omega arith)
set_ssrc_lem n (a ∷ b ∷ c ∷ []) h = absurd (omega arith)
set_ssrc_lem n (a ∷ b ∷ c ∷ d ∷ []) h = absurd (omega arith)
set_ssrc_lem n (a ∷ b ∷ c ∷ d ∷ e ∷ []) h = absurd (omega arith)
set_ssrc_lem n (a ∷ b ∷ c ∷ d ∷ e ∷ f ∷ []) h = absurd (omega arith)
set_ssrc_lem n (a ∷ b ∷ c ∷ d ∷ e ∷ f ∷ g ∷ []) h = absurd (omega arith)
set_ssrc_lem n (a ∷ b ∷ c ∷ d ∷ e ∷ f ∷ g ∷ i ∷ []) h = absurd (omega arith)
set_ssrc_lem n (a ∷ b ∷ c ∷ d ∷ e ∷ f ∷ g ∷ i ∷ j ∷ []) h = absurd (omega arith)
set_ssrc_lem n (a ∷ b ∷ c ∷ d ∷ e ∷ f ∷ g ∷ i ∷ j ∷ k ∷ []) h = absurd (omega arith)
set_ssrc_lem n (a ∷ b ∷ c ∷ d ∷ e ∷ f ∷ g ∷ i ∷ j ∷ k ∷ l ∷ []) h = absurd (omega arith)
set_ssrc_lem n (a ∷ b ∷ c ∷ d ∷ e ∷ f ∷ g ∷ i ∷ j ∷ k ∷ l ∷ m ∷ rest) h = (refl, refl, refl, refl)

-- What `sendData` of the agents does to an RTP header: in a packet of twelve bytes or more, the source
-- that was set is read back, in network order, the payload type is the low seven bits of what was
-- set, and the marker bit and the length stay.
pub set_payload-set_ssrc :
    (v n : ℕ) (packet : List ℕ)
    → 12 ≤ length packet
    → let sent = set_payload v (set_ssrc n packet) in
      (ssrc sent ≡ be32 n)
      × (payload sent ≡ v % 128)
      × (marker sent ≡ marker packet)
      × (length sent ≡ length packet)
set_payload-set_ssrc v n packet h =
    let (s, _, m, l) = set_ssrc_lem n packet h in
    let (p', m', s', l') = set_payload_lem v (set_ssrc n packet) (omega arith) in
    (s' ∙ s, p', m' ∙ m, l' ∙ l)
