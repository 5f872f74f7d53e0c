-- ===== src/Session/Soundness.antt =====
-- src/mediasession.cpp: a handler of a session that runs uses no NULL pointer and no deleted object.
use media_gateway_v4_7_1_sde.Base.{
  abort, Bool, ℕ, zero, suc, ◌≡◌, refl, true, some, List, [], ◌∷◌, Text, ok, if◌then◌else◌, length,
  no_rounds, buffer_overflow, Sound, Sound-ok, Sound-if, Sound-bind, Sound-fault, Sound-Returns,
}
use media_gateway_v4_7_1_sde.Sdp.{
  SessionType, replace_loop, replace_crypto, ufrag_pwd_loop, replace_ufrag_pwd, ice_ufrag,
  crypto_80,
}
use media_gateway_v4_7_1_sde.Text.{find}
use media_gateway_v4_7_1_sde.Etcp.{Sending, nothing, overflow, sends, send_packet}
use media_gateway_v4_7_1_sde.Candidate.{Nice, new_candidate}
use media_gateway_v4_7_1_sde.Rtp.{Srtp, Converter, copy_key, init}
use media_gateway_v4_7_1_sde.Messages.{SessionMessage, package_session_message}
use media_gateway_v4_7_1_sde.Agents.{to_signalling}
use media_gateway_v4_7_1_sde.Base64.{base64_decode}
use media_gateway_v4_7_1_sde.Agents.Descriptions.{
  handle_sdp_from_web-Returns, handle_sdp_from_ims-Returns,
}
use media_gateway_v4_7_1_sde.Agents.Web.{
  WebAgent, CandidateHeap, add_remote, add_remotes, set_remote_candidates,
  handle_candidate_from_web, handle_sdp_from_web, web_tailing_jobs,
}
use media_gateway_v4_7_1_sde.Agents.Web.Describe.{create_sdp_to_web}
use media_gateway_v4_7_1_sde.Agents.Ims.{handle_sdp_from_ims}
use media_gateway_v4_7_1_sde.Timer.{Timers}
use media_gateway_v4_7_1_sde.Session.{
  Env, Session, Agents, get_agents, send_packet_to_sg, send_message, as_candidate,
}
use media_gateway_v4_7_1_sde.Session.Kept.{Runs}
use media_gateway_v4_7_1_sde.Session.Handlers.{
  send_offer_or_answer_to_ims, send_candidates_to_web, send_candidates_thrice, describe_to_web,
  do_tailing_jobs, handle_offer_from_web, handle_offer_from_ims, handle_answer_from_web,
  handle_answer_from_ims, session_candidate_from_web,
}

copy_key-Sound : (key : List ℕ) → Sound (copy_key key)
unfolding copy_key
copy_key-Sound key = Sound-if _ (Sound-ok _) (Sound-fault buffer_overflow tt)

init-Sound : (lib : Srtp) (enkey dekey : Text) (c : Converter) → Sound (init lib enkey dekey c)
unfolding init
init-Sound lib enkey dekey c =
    Sound-bind (copy_key (base64_decode enkey)) _ (copy_key-Sound _) (λ key _.
      Sound-if _
        (Sound-bind (copy_key (base64_decode dekey)) _ (copy_key-Sound _)
          (λ k _. Sound-if _ (Sound-ok _) (Sound-ok _)))
        (Sound-ok _))

new_candidate-Sound : (nice : Nice) (line : Text) → Sound (new_candidate nice line)
unfolding new_candidate
new_candidate-Sound nice line = Sound-if _ (Sound-ok _) (Sound-fault buffer_overflow tt)

add_remotes-Sound :
    (nice : Nice) (lines : List Text) (heap : CandidateHeap) (cands : List ℕ)
    → Sound (add_remotes nice lines heap cands)
unfolding add_remotes
add_remotes-Sound nice [] heap cands = Sound-ok _
add_remotes-Sound nice (line ∷ lines) heap cands =
    Sound-bind (new_candidate nice line) _ (new_candidate-Sound nice line)
      (λ c _. let s = add_remote c heap cands in add_remotes-Sound nice lines s.0 s.1)

set_remote_candidates-Sound :
    (nice : Nice) (heap : CandidateHeap) (w : WebAgent) → Sound (set_remote_candidates nice heap w)
unfolding set_remote_candidates
set_remote_candidates-Sound nice heap w =
    Sound-bind (add_remotes nice w.remote_rtp_candidates heap []) _
      (add_remotes-Sound nice _ heap [])
      (λ r _.
        Sound-bind (add_remotes nice w.remote_rtcp_candidates r.0 []) _
          (add_remotes-Sound nice _ r.0 []) (λ t _. Sound-ok _))

handle_candidate_from_web-Sound :
    (nice : Nice) (line : Text) (w : WebAgent) → Sound (handle_candidate_from_web nice line w)
unfolding handle_candidate_from_web
handle_candidate_from_web-Sound nice [] w = Sound-ok _
handle_candidate_from_web-Sound nice (c ∷ cs) w =
    Sound-bind (new_candidate nice (c ∷ cs)) _ (new_candidate-Sound nice (c ∷ cs))
      (λ k _. Sound-ok _)

replace_loop-Sound :
    (fuel : ℕ) (tag value sdp : Text) (begin : ℕ) → Sound (replace_loop fuel tag value sdp begin)
unfolding replace_loop
replace_loop-Sound zero tag value sdp begin = Sound-fault no_rounds tt
replace_loop-Sound (suc fuel) tag value sdp begin =
    Sound-if _ (Sound-ok sdp) (Sound-if _ (Sound-ok sdp) (replace_loop-Sound fuel tag value _ _))

ufrag_pwd_loop-Sound :
    (fuel : ℕ) (ufrag pwd sdp : Text) (begin : ℕ) → Sound (ufrag_pwd_loop fuel ufrag pwd sdp begin)
unfolding ufrag_pwd_loop
ufrag_pwd_loop-Sound zero ufrag pwd sdp begin = Sound-fault no_rounds tt
ufrag_pwd_loop-Sound (suc fuel) ufrag pwd sdp begin =
    Sound-if _ (Sound-ok sdp) (ufrag_pwd_loop-Sound fuel ufrag pwd _ _)

replace_ufrag_pwd-Sound : (ufrag pwd sdp : Text) → Sound (replace_ufrag_pwd ufrag pwd sdp)
unfolding replace_ufrag_pwd
replace_ufrag_pwd-Sound ufrag pwd sdp =
    ufrag_pwd_loop-Sound (suc (length sdp)) ufrag pwd sdp (find sdp ice_ufrag 0)

replace_crypto-Sound : (sdp crypto : Text) → Sound (replace_crypto sdp crypto)
unfolding replace_crypto
replace_crypto-Sound sdp crypto =
    replace_loop-Sound (suc (length sdp)) crypto_80 crypto sdp (find sdp crypto_80 0)

create_sdp_to_web-Sound : (stype : SessionType) (w : WebAgent) → Sound (create_sdp_to_web stype w)
unfolding create_sdp_to_web
create_sdp_to_web-Sound stype w =
    Sound-bind _ _ (replace_ufrag_pwd-Sound w.local_ufrag w.local_pwd _)
      (λ sdp _. replace_crypto-Sound sdp w.crypto_to_web)

send_packet_to_sg-Sound : (fails : List ℕ → Bool) (msg : Text) → Sound (send_packet_to_sg fails msg)
unfolding send_packet_to_sg
send_packet_to_sg-Sound fails msg = at (send_packet msg) refl
  where
    at : (r : Sending) → send_packet msg ≡ r → Sound (send_packet_to_sg fails msg)
    at nothing e = rw (send_packet_to_sg, e) (Sound-ok [])
    at overflow e = rw (send_packet_to_sg, e) (Sound-fault buffer_overflow tt)
    at (sends bytes) e =
        rw (send_packet_to_sg, e)
          (Sound-if (fails bytes) (Sound-fault abort tt) (Sound-ok (to_signalling bytes ∷ [])))

module _ (env : Env) where
  open env use {json, nice, srtp, sip}

  send_message-Sound : (m : SessionMessage) → Sound (send_message env m)
  unfolding send_message
  send_message-Sound m = send_packet_to_sg-Sound env.send_fails (package_session_message json m)

  agents-Sound : (s : Session) → Runs s → Sound (get_agents s.agents)
  agents-Sound s (a, e) = rw e (Sound-ok a)

  forward-Sound : (s : Session) → Runs s → Sound (send_offer_or_answer_to_ims env s)
  unfolding send_offer_or_answer_to_ims
  forward-Sound s r =
      Sound-if _
        (Sound-bind (get_agents s.agents) _ (agents-Sound s r) (λ a _.
          Sound-if _
            (Sound-bind (set_remote_candidates nice env.heap a.web) _
              (set_remote_candidates-Sound nice env.heap a.web)
              (λ cands _. Sound-bind _ _ (send_message-Sound _) (λ sent _. Sound-ok _)))
            (Sound-ok [])))
        (Sound-ok [])

  tailing-Sound :
      (this : ℕ) (s : Session) (timers : Timers)
      → Runs s
      → Sound (do_tailing_jobs env this s timers)
  unfolding do_tailing_jobs web_tailing_jobs
  tailing-Sound this s timers r = Sound-bind (get_agents s.agents) _ (agents-Sound s r) (λ a _.
      Sound-bind (web_tailing_jobs srtp a.web) _
        (Sound-bind _ _ (init-Sound srtp _ _ _) (λ c _. Sound-ok _)) (λ w _. Sound-ok _))

  candidates-Sound :
      (lines : List Text) (msg : SessionMessage) → Sound (send_candidates_to_web env lines msg)
  unfolding send_candidates_to_web
  candidates-Sound [] msg = Sound-ok []
  candidates-Sound (line ∷ lines) msg =
      Sound-bind _ _ (send_message-Sound (as_candidate line msg))
        (λ sent _. Sound-bind _ _ (candidates-Sound lines msg) (λ more _. Sound-ok _))

  thrice-Sound :
      (lines : List Text) (msg : SessionMessage) → Sound (send_candidates_thrice env lines msg)
  unfolding send_candidates_thrice
  thrice-Sound lines msg =
      Sound-bind (send_candidates_to_web env lines msg) _ (candidates-Sound lines msg) (λ x _.
        Sound-bind (send_candidates_to_web env lines msg) _ (candidates-Sound lines msg) (λ y _.
          Sound-bind (send_candidates_to_web env lines msg) _ (candidates-Sound lines msg)
            (λ z _. Sound-ok _)))

  describe-Sound :
      (msg : SessionMessage) (stype : SessionType) (a : Agents)
      → Sound (describe_to_web env msg stype a)
  unfolding describe_to_web
  describe-Sound msg stype a = Sound-bind _ _ (create_sdp_to_web-Sound stype a.web) (λ sdp _.
      Sound-bind _ _ (send_message-Sound _) (λ sent _.
        Sound-bind _ _ (thrice-Sound a.web.local_candidates msg) (λ cands _. Sound-ok _)))

  module _ (msg : SessionMessage) (s : Session) (r : Runs s) where
    web_sdp-Sound : (a : Agents) → Sound (handle_sdp_from_web msg.roap.sdp a.web)
    web_sdp-Sound a = Sound-Returns _ (handle_sdp_from_web-Returns msg.roap.sdp a.web)

    ims_sdp-Sound :
        (a : Agents)
        → Sound (handle_sdp_from_ims sip env.unset_port env.unset_port msg.roap.sdp a.ims)
    ims_sdp-Sound a = Sound-Returns _ (handle_sdp_from_ims-Returns sip _ _ msg.roap.sdp a.ims)

    pub handle_offer_from_web-Sound : Sound (handle_offer_from_web env msg s)
    unfolding handle_offer_from_web
    handle_offer_from_web-Sound = Sound-bind (get_agents s.agents) _ (agents-Sound s r) (λ a _.
        Sound-bind _ _ (web_sdp-Sound a) (λ x _.
          let s' : Session = record s {
            original_offer = msg;
            web_caller_flag = true;
            session_type = x.1;
            agents = some (record a { web = x.2 });
            web_offer_or_answer_arrived = true;
          } in
          Sound-bind (if x.0 then send_offer_or_answer_to_ims env s' else ok []) _
            (Sound-if x.0 (forward-Sound s' (_, refl)) (Sound-ok [])) (λ sent _. Sound-ok _)))

    pub handle_offer_from_ims-Sound : Sound (handle_offer_from_ims env msg s)
    unfolding handle_offer_from_ims
    handle_offer_from_ims-Sound = Sound-bind (get_agents s.agents) _ (agents-Sound s r) (λ a _.
        Sound-bind _ _ (ims_sdp-Sound a) (λ x _.
          Sound-if _ (Sound-bind _ _ (describe-Sound msg _ _) (λ sent _. Sound-ok _)) (Sound-ok _)))

    pub session_candidate_from_web-Sound : Sound (session_candidate_from_web env msg s)
    unfolding session_candidate_from_web
    session_candidate_from_web-Sound = Sound-bind (get_agents s.agents) _ (agents-Sound s r) (λ a _.
        Sound-bind _ _ (handle_candidate_from_web-Sound nice msg.roap.sdp a.web) (λ x _.
          Sound-if _ (Sound-bind _ _ (forward-Sound _ (_, refl)) (λ sent _. Sound-ok _))
            (Sound-ok _)))

    pub handle_answer_from_web-Sound :
        (this : ℕ) (timers : Timers) → Sound (handle_answer_from_web env this msg s timers)
    unfolding handle_answer_from_web
    handle_answer_from_web-Sound this timers =
        Sound-bind (get_agents s.agents) _ (agents-Sound s r) (λ a _.
          Sound-bind _ _ (web_sdp-Sound a) (λ x _.
            Sound-if _
              (Sound-bind _ _ (forward-Sound _ (_, refl)) (λ sent _.
                Sound-bind _ _ (tailing-Sound this _ timers (_, refl)) (λ t _. Sound-ok _)))
              (Sound-ok _)))

    pub handle_answer_from_ims-Sound :
        (this : ℕ) (timers : Timers) → Sound (handle_answer_from_ims env this msg s timers)
    unfolding handle_answer_from_ims
    handle_answer_from_ims-Sound this timers =
        Sound-bind (get_agents s.agents) _ (agents-Sound s r) (λ a _.
          Sound-bind _ _ (ims_sdp-Sound a) (λ x _.
            Sound-if _
              (Sound-bind _ _ (describe-Sound msg _ _) (λ sent _.
                Sound-bind _ _ (tailing-Sound this _ timers (_, refl)) (λ t _. Sound-ok _)))
              (Sound-ok _)))
