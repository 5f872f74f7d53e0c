-- ===== src/Sdp/Rounds.antt =====
-- The loops of src/webagent.cpp and src/imsagent.cpp over a session description end.
use media_gateway_v4_7_1_sde.Base.{
  ℕ, zero, suc, ◌+◌, ◌<◌, ◌≤◌, ◌≡◌, ◌≢◌, inl, inr, refl, Bool, false, Option, none, some, length,
  Text, codes, ◌==◌, arith, Bool-cases,
}
use media_gateway_v4_7_1_sde.Text.{npos, find, behind}
use media_gateway_v4_7_1_sde.Text.Search.{find_fits}
use media_gateway_v4_7_1_sde.Sdp.{
  audio_loop, audio_supported, m_audio, endless, rtpmap, rtpmap_loop, codec_payload,
}

-- Rounds for every place of the text from `begin` on.
audio_loop_ends :
    (fuel : ℕ) (sdp : Text) (begin end : ℕ)
    → begin ≤ length sdp
    → length sdp < fuel + begin
    → audio_loop fuel sdp begin end ≢ none
unfolding audio_loop
audio_loop_ends zero sdp begin end h r = absurd (omega arith)
audio_loop_ends (suc fuel) sdp begin end h r = elim (find_fits sdp (codes " ") begin h) [
  | inl e ↦ λ gone. ground (arith, e, gone)
  | inr (low, high) ↦
      let rest =
        audio_loop_ends fuel sdp (find sdp (codes " ") begin + 1) end (omega arith) (omega arith) in
      λ gone. ground (arith, rest, gone)
]

behind_fits :
    (sdp s : Text) (from : ℕ)
    → length s ≡ 1
    → from ≤ length sdp
    → behind (find sdp s from) ≤ length sdp
behind_fits sdp s from one h = elim (find_fits sdp s from h) [
  | inl e ↦ rw e (omega arith)
  | inr (low, high) ↦ omega arith
]

decided : {o p : Option Bool} → o ≢ none → p ≡ o → (b : Bool) × (p ≡ some b)
decided {o = none} ne e = absurd (ne refl)
decided {o = some b} ne e = (b, e)

-- Whether an audio line has PCMA is always decided: the loop over the payload types ends.
pub audio_supported_total : (sdp : Text) → (b : Bool) × (audio_supported sdp ≡ some b)
unfolding audio_supported
audio_supported_total sdp = elim (find_fits sdp m_audio 0 (omega arith)) [
  | inl e ↦ (false, rw e)
  | inr (low, high) ↦ elim (Bool-cases (find sdp m_audio 0 == npos)) [
    | inl e ↦ (false, rw e)
    | inr found ↦
        let port = find sdp m_audio 0 + length m_audio in
        let proto = behind (find sdp (codes " ") port) in
        let formats = behind (find sdp (codes " ") proto) in
        decided
          (audio_loop_ends (suc (length sdp)) sdp formats (find sdp (codes "\n") formats)
            (behind_fits sdp (codes " ") proto refl (behind_fits sdp (codes " ") port refl high))
            (omega arith))
          (rw found)
  ]
]

rtpmap_loop_ends :
    (fuel : ℕ) (name sdp : Text) (begin : ℕ)
    → begin ≤ length sdp
    → length sdp < fuel + begin
    → rtpmap_loop fuel name sdp begin ≢ endless
unfolding rtpmap_loop
rtpmap_loop_ends zero name sdp begin h r = absurd (omega arith)
rtpmap_loop_ends (suc fuel) name sdp begin h r = elim (find_fits sdp rtpmap begin h) [
  | inl e ↦ λ gone. ground (arith, e, gone)
  | inr (low, high) ↦
      let rest =
        rtpmap_loop_ends fuel name sdp (find sdp rtpmap begin + 9) (omega arith) (omega arith) in
      λ gone. ground (arith, rest, gone)
]

pub codec_payload_ends : (name sdp : Text) → codec_payload name sdp ≢ endless
unfolding codec_payload
codec_payload_ends name sdp =
    rtpmap_loop_ends (suc (length sdp)) name sdp 0 (omega arith) (omega arith)
