-- ===== src/Tests/Media.antt =====
-- The media of a session at concrete packets: src/webagent.cpp, src/imsagent.cpp and
-- src/codecconverter.cpp.
use media_gateway_v4_7_1_sde.Base.{
  ℕ, zero, suc, ◌≡◌, refl, ap, arith, true, some, List, [], ◌∷◌, ◌++◌, All, length, replicate, map,
  Run, ok, fault, buffer_overflow, length-append, ltb, if◌then◌else◌,
}
use media_gateway_v4_7_1_sde.Rtp.{
  Srtp, Stream, Converter, policy_of, outbound, inbound, new_converter,
}
use media_gateway_v4_7_1_sde.RtpHeader.{payload, set_payload, set_ssrc}
use media_gateway_v4_7_1_sde.Agents.{Effect, to_web, to_ims_audio, to_codec, bump}
use media_gateway_v4_7_1_sde.Agents.Web.{WebAgent, new_web_agent}
use media_gateway_v4_7_1_sde.Agents.Web.Data.{
  Statics, new_statics, is_closed, receive_data, web_video,
}
use media_gateway_v4_7_1_sde.Session.{Agents}
use media_gateway_v4_7_1_sde.Session.Media.{
  Media, from_browser, at_ims_audio, at_ims_to_web, media_run, media_step, recv_from,
}
use media_gateway_v4_7_1_sde.Session.Media.Secrecy.{IsProtected, media_run-IsProtected}
use media_gateway_v4_7_1_sde.Session.Media.Closed.{IsNotToWeb, media_run-closed}
use media_gateway_v4_7_1_sde.Session.Media.Feedback.{
  count_to_web, media_run-feedback, is_video_packet,
}
use media_gateway_v4_7_1_sde.Session.Media.Overflow.{Tags, media_step-buffer_overflow}
use media_gateway_v4_7_1_sde.Session.Media.Forged.{receive_data-audio}
use media_gateway_v4_7_1_sde.Tests.Fixtures.{new_agents}

-- A library that puts a tag of ten bytes behind each packet, and accepts none.
abbrev tagging : Srtp
tagging = record {
  srtp_create = λ p. 0;
  srtp_protect = λ s b. (0, b ++ replicate 10 7);
  srtp_unprotect = λ s b. (7, b);
  srtp_protect_rtcp = λ s b. (0, b ++ replicate 14 7);
}

abbrev a_stream : Stream
a_stream = record { policy = policy_of outbound (replicate 30 1); handled = [] }

-- The agents of a session whose keys are there.
abbrev keyed_agents : Agents
keyed_agents = record new_agents {
  web = record new_agents.web {
    is_ready = true;
    rtp_converter = record {
      session_encrypt = some a_stream;
      session_decrypt = some a_stream;
      masen = [];
      master_key = [];
      ready = true;
    };
  };
}

abbrev media_of : Agents → ℕ → Media
media_of a size = record {
  agents = a;
  statics = record { a = 2; cnt = 187 };
  ims_video_buf = replicate size 0;
  ims_audio_buf = replicate size 0;
  web_to_ims_buf = replicate size 0;
  ims_to_web_buf = replicate size 0;
}

-- An RTP packet of twelve bytes with this payload type.
abbrev packet : ℕ → List ℕ
packet type = 0x80 ∷ type ∷ 0 ∷ 1 ∷ 0 ∷ 0 ∷ 0 ∷ 0 ∷ 1 ∷ 2 ∷ 3 ∷ 4 ∷ []

media_run-closed_example :
    (r : Media × List Effect) × (media_run tagging 0
        (at_ims_audio (some (packet 8)) ∷ from_browser 1 (packet 8) 12 ∷ [])
        (media_of new_agents 3005)
      ≡ ok r)
    × ((r.0.agents.web ≡ new_agents.web)
        × (r.0.statics ≡ (media_of new_agents 3005).statics)
        × All IsNotToWeb r.1)
unfolding is_closed new_web_agent new_converter
media_run-closed_example =
    media_run-closed tagging 0 (at_ims_audio (some (packet 8)) ∷ from_browser 1 (packet 8) 12 ∷ [])
      (media_of new_agents 3005) refl

length-replicate : (n x : ℕ) → length (replicate n x) ≡ n
length-replicate zero x = refl
length-replicate (suc n) x = ap suc (length-replicate n x)

-- A library that refuses what is shorter than an RTP header, with the status `err_status_bad_param`.
abbrev checking : Srtp
checking = record tagging {
  srtp_protect = λ s b. if ltb (length b) 12 then (2, b) else (0, b ++ replicate 10 7);
}

checking-Tags : Tags checking a_stream
checking-Tags q h good = ground (arith, length-append q (replicate 10 7))

media_step-buffer_overflow_example :
    media_step checking 0 (at_ims_to_web (some (replicate 3000 5))) (media_of keyed_agents 3005)
    ≡ fault buffer_overflow
unfolding is_closed recv_from set_payload set_ssrc
media_step-buffer_overflow_example =
    media_step-buffer_overflow checking a_stream 0 (replicate 3000 5) (media_of keyed_agents 3005)
      checking-Tags refl refl refl (length-replicate 3005 0)
      (omega (arith, length-replicate 3000 5))

receive_data-audio_example :
    (w' : WebAgent) × (w'.curcnt ≡ 1)
    × (receive_data tagging 0 1
          (packet 8)
          12
          keyed_agents.ims
          keyed_agents.web_to_ims
          new_statics
          keyed_agents.web
        ≡ ok (
          new_statics,
          w',
          to_ims_audio (0x80 ∷ 8 ∷ 0 ∷ 1 ∷ 0 ∷ 0 ∷ 0 ∷ 0 ∷ 46 ∷ 91 ∷ 242 ∷ 113 ∷ []) ∷ [],
        ))
unfolding is_closed new_web_agent payload set_payload set_ssrc
    media_gateway_v4_7_1_sde.Agents.Ims.run_ims media_gateway_v4_7_1_sde.Text.atoi
    media_gateway_v4_7_1_sde.Agents.Ims.new_ims_agent
receive_data-audio_example =
    receive_data-audio tagging a_stream 0 (packet 8) 12 keyed_agents.ims keyed_agents.web_to_ims
      new_statics keyed_agents.web 7 (packet 8) refl refl refl refl refl (omega arith) (omega arith)

-- What a run ends with.
abbrev end_of : Media → Run (Media × List Effect) → Media × List Effect
end_of m (ok r) = r
end_of m (fault e) = (m, [])

-- Two video packets from the browser, the second of which is the 189th.
abbrev videos : List (List ℕ × ℕ)
videos = (packet 112, 12) ∷ (packet 112, 12) ∷ []

abbrev feedback_end : Media × List Effect
feedback_end = end_of (media_of keyed_agents 12) (
    media_run tagging 0 (map (λ (p : List ℕ × ℕ). from_browser 1 p.0 p.1) videos)
      (media_of keyed_agents 12))

media_run-feedback_example : (feedback_end.0.statics.cnt ≡ 1) × (count_to_web feedback_end.1 ≡ 1)
unfolding is_closed is_video_packet new_web_agent payload media_run receive_data
    media_gateway_v4_7_1_sde.Agents.Web.Data.send_rtcp media_gateway_v4_7_1_sde.Rtp.encrypt_rtcp
    media_gateway_v4_7_1_sde.Rtp.decrypt_data media_gateway_v4_7_1_sde.Agents.Web.Data.write_back
media_run-feedback_example =
    media_run-feedback tagging 0 videos (media_of keyed_agents 12) feedback_end.0 feedback_end.1
      (omega arith) refl (refl, (refl, tt)) refl

-- An audio packet of the IMS, and what the browser is sent.
abbrev audio_end : Media × List Effect
audio_end =
    end_of (media_of keyed_agents 22)
      (media_run tagging 0 (at_ims_audio (some (packet 8)) ∷ []) (media_of keyed_agents 22))

media_run-IsProtected_example :
    All
      (IsProtected tagging)
      (to_web (0x80 ∷ 8 ∷ 0 ∷ 1 ∷ 0 ∷ 0 ∷ 0 ∷ 0 ∷ 13 ∷ 62 ∷ 215 ∷ 142 ∷ replicate 10 7) ∷ [])
unfolding media_run media_gateway_v4_7_1_sde.Agents.Web.Data.send_web new_web_agent payload set_ssrc
    media_gateway_v4_7_1_sde.Agents.Web.Data.encrypt_and_send
    media_gateway_v4_7_1_sde.Rtp.encrypt_data media_gateway_v4_7_1_sde.Agents.Web.Data.write_back
    media_gateway_v4_7_1_sde.Text.atoi
media_run-IsProtected_example =
    media_run-IsProtected tagging 0 (at_ims_audio (some (packet 8)) ∷ []) (media_of keyed_agents 22)
      audio_end.0 audio_end.1 refl
