-- ===== src/Tests/Timers.antt =====
-- The whole process at concrete inputs: a call with its offer and its answer, and the timer that the
-- answer sets.
use media_gateway_v4_7_1_sde.Base.{
  ℕ, ◌≡◌, ◌≢◌, refl, sym, ◌∙◌, Bool, true, false, none, some, List, [], Text, codes, ok, abort,
  null_pointer, use_after_free, if◌then◌else◌, map_find, map_assign, nat_eq, eq_ℤ, subst, fault,
  ◌>>=◌, ok-injective,
}
use media_gateway_v4_7_1_sde.Text.{text_eq, eq_text}
use media_gateway_v4_7_1_sde.Etcp.{c_str}
use media_gateway_v4_7_1_sde.Messages.{
  SessionMessage, offer, answer, message_value, parser_session_message,
}
use media_gateway_v4_7_1_sde.Agents.{Effect}
use media_gateway_v4_7_1_sde.Timer.{Ts}
use media_gateway_v4_7_1_sde.Timer.Threads.{
  Threads, away, tested, stopping, timing, created, step, stop_step, sleep_step, at_start, and_then,
}
use media_gateway_v4_7_1_sde.Session.{Env, Session, Resources, is_session_stop}
use media_gateway_v4_7_1_sde.Gateway.{
  Gateway, new_gateway, deref, dispatch, on_timeout, allocate, handle_session_message,
}
use media_gateway_v4_7_1_sde.Gateway.Guard.Callbacks.{Unanswered}
use media_gateway_v4_7_1_sde.Gateway.Steps.{allocates, receives}
use media_gateway_v4_7_1_sde.Gateway.Steps.Answers.{ReachOnce, timers_safe}
use media_gateway_v4_7_1_sde.Gateway.Steps.Memory.{messages_safe}
use media_gateway_v4_7_1_sde.Tests.Fixtures.{env, resources, message_of, json_of}
use media_gateway_v4_7_1_sde.Tests.Calls.{result_of, a_session}

abbrev offer_c : SessionMessage
offer_c = message_of offer (codes "c") []

abbrev pub audio_sdp : Text
audio_sdp = codes "m=audio 9 RTP/SAVPF 8\r\n"

abbrev answer_c : SessionMessage
answer_c = message_of answer (codes "c") audio_sdp

-- A library with a text for each of the two messages; that of the answer is a browser's.
abbrev call_env : Env
call_env = record env {
  json = record (json_of [] (message_value env.json offer_c)) {
    parse = λ t.
        if eq_text t (codes "{}")
        then some (message_value env.json offer_c)
        else if eq_text t (codes "crypto")
        then some (message_value env.json answer_c)
        else none;
  };
}

abbrev prepared : Gateway
prepared = (allocate call_env resources new_gateway).1

abbrev offered : Bool × Gateway × List Effect
offered =
    result_of (false, new_gateway, [])
      (handle_session_message call_env 1 (c_str (codes "{}")) prepared)

abbrev ready : Gateway
ready = (allocate call_env resources offered.1).1

abbrev answered : Bool × Gateway × List Effect
answered =
    result_of (false, new_gateway, [])
      (handle_session_message call_env 2 (c_str (codes "crypto")) ready)

timer_set : map_find 1 answered.1.timers.tpool ≡ some (record { timeout = 30; para = 1; id = 1 })
unfolding handle_session_message map_find map_assign parser_session_message eq_text c_str
    media_gateway_v4_7_1_sde.Messages.parse_value media_gateway_v4_7_1_sde.Messages.read_field
    media_gateway_v4_7_1_sde.Messages.roap_value media_gateway_v4_7_1_sde.Messages.parse_roap
    media_gateway_v4_7_1_sde.Messages.read_sdp media_gateway_v4_7_1_sde.Messages.sdp_value
    media_gateway_v4_7_1_sde.Messages.optional media_gateway_v4_7_1_sde.Messages.value_of_null
    media_gateway_v4_7_1_sde.Gateway.on_offer media_gateway_v4_7_1_sde.Gateway.is_from_browser
    media_gateway_v4_7_1_sde.Text.contains media_gateway_v4_7_1_sde.Text.find
    media_gateway_v4_7_1_sde.Text.search
    media_gateway_v4_7_1_sde.Session.Handlers.handle_offer_from_ims
    media_gateway_v4_7_1_sde.Agents.Ims.handle_sdp_from_ims
    media_gateway_v4_7_1_sde.Sdp.audio_supported media_gateway_v4_7_1_sde.Agents.Ims.session_type
    media_gateway_v4_7_1_sde.Session.new_session media_gateway_v4_7_1_sde.Gateway.on_message
    media_gateway_v4_7_1_sde.Session.Handlers.handle_answer_from_web
    media_gateway_v4_7_1_sde.Agents.Web.new_web_agent
    media_gateway_v4_7_1_sde.Agents.Web.handle_sdp_from_web
    media_gateway_v4_7_1_sde.Session.Handlers.do_tailing_jobs
    media_gateway_v4_7_1_sde.Session.Handlers.send_offer_or_answer_to_ims
    media_gateway_v4_7_1_sde.Agents.Web.web_tailing_jobs media_gateway_v4_7_1_sde.Rtp.init
    media_gateway_v4_7_1_sde.Rtp.copy_key media_gateway_v4_7_1_sde.Timer.set_timer
    media_gateway_v4_7_1_sde.Base64.base64_decode media_gateway_v4_7_1_sde.Rtp.new_converter
    media_gateway_v4_7_1_sde.Agents.Ims.run_ims media_gateway_v4_7_1_sde.Agents.Ims.new_ims_agent
    media_gateway_v4_7_1_sde.Text.substr media_gateway_v4_7_1_sde.Agents.Codec.run message_value
    dispatch allocate deref is_session_stop
timer_set = refl

-- The two messages as they are read.
abbrev read : Text → SessionMessage
read packet = result_of offer_c (parser_session_message call_env.json call_env.unset (c_str packet))

other-Unanswered :
    (msg : SessionMessage) (g : Gateway) → eq_ℤ msg.roap.roap_type answer ≡ false → Unanswered msg g
other-Unanswered msg g other = λ p s is e f. absurd (cc (is, other))

first-Unanswered :
    (msg : SessionMessage) (g : Gateway) (q : ℕ) (t : Session)
    → map_find msg.roap.offer_session_id g.sessions ≡ some q
    → deref q g ≡ ok t
    → t.timer_id ≡ 0
    → Unanswered msg g
first-Unanswered msg g q t found here unset = λ p s is e f.
    let same : q ≡ p = cc (found, e) in cc (subst (λ (k : ℕ). deref k g ≡ ok t) same here, f, unset)

allowed :
    (packet : Text) (g : Gateway) (m : SessionMessage)
    → parser_session_message call_env.json call_env.unset (c_str packet) ≡ ok m
    → Unanswered m g
    → (msg : SessionMessage)
    → parser_session_message call_env.json call_env.unset (c_str packet) ≡ ok msg
    → Unanswered msg g
allowed packet g m here first msg e =
    subst (λ (x : SessionMessage). Unanswered x g) (ok-injective (sym here ∙ e)) first

offered-Reach : ReachOnce call_env (λ n. resources) (record { gateway = offered.1; spare = none })
unfolding handle_session_message map_find map_assign parser_session_message eq_text c_str
    media_gateway_v4_7_1_sde.Messages.parse_value media_gateway_v4_7_1_sde.Messages.read_field
    media_gateway_v4_7_1_sde.Messages.roap_value media_gateway_v4_7_1_sde.Messages.parse_roap
    media_gateway_v4_7_1_sde.Messages.read_sdp media_gateway_v4_7_1_sde.Messages.sdp_value
    media_gateway_v4_7_1_sde.Messages.optional media_gateway_v4_7_1_sde.Messages.value_of_null
    media_gateway_v4_7_1_sde.Gateway.on_offer media_gateway_v4_7_1_sde.Gateway.is_from_browser
    media_gateway_v4_7_1_sde.Text.contains media_gateway_v4_7_1_sde.Text.find
    media_gateway_v4_7_1_sde.Text.search
    media_gateway_v4_7_1_sde.Session.Handlers.handle_offer_from_ims
    media_gateway_v4_7_1_sde.Agents.Ims.handle_sdp_from_ims
    media_gateway_v4_7_1_sde.Sdp.audio_supported media_gateway_v4_7_1_sde.Agents.Ims.session_type
    media_gateway_v4_7_1_sde.Session.new_session media_gateway_v4_7_1_sde.Gateway.on_message
    media_gateway_v4_7_1_sde.Session.Handlers.handle_answer_from_web
    media_gateway_v4_7_1_sde.Agents.Web.new_web_agent
    media_gateway_v4_7_1_sde.Agents.Web.handle_sdp_from_web
    media_gateway_v4_7_1_sde.Session.Handlers.do_tailing_jobs
    media_gateway_v4_7_1_sde.Session.Handlers.send_offer_or_answer_to_ims
    media_gateway_v4_7_1_sde.Agents.Web.web_tailing_jobs media_gateway_v4_7_1_sde.Rtp.init
    media_gateway_v4_7_1_sde.Rtp.copy_key media_gateway_v4_7_1_sde.Timer.set_timer
    media_gateway_v4_7_1_sde.Base64.base64_decode media_gateway_v4_7_1_sde.Rtp.new_converter
    media_gateway_v4_7_1_sde.Agents.Ims.run_ims media_gateway_v4_7_1_sde.Agents.Ims.new_ims_agent
    media_gateway_v4_7_1_sde.Text.substr media_gateway_v4_7_1_sde.Agents.Codec.run message_value
    dispatch allocate deref is_session_stop
offered-Reach =
    ReachOnce.and_then (ReachOnce.and_then ReachOnce.at_start (allocates refl) tt)
      (receives (codes "{}") {used = true} {g = offered.1} {sent = offered.2} refl refl)
      (allowed (codes "{}") prepared (read (codes "{}")) refl
        (other-Unanswered (read (codes "{}")) prepared refl))

answered-Reach :
    ReachOnce call_env (λ n. resources) (record { gateway = answered.1; spare = some 2 })
unfolding handle_session_message map_find map_assign parser_session_message eq_text c_str
    media_gateway_v4_7_1_sde.Messages.parse_value media_gateway_v4_7_1_sde.Messages.read_field
    media_gateway_v4_7_1_sde.Messages.roap_value media_gateway_v4_7_1_sde.Messages.parse_roap
    media_gateway_v4_7_1_sde.Messages.read_sdp media_gateway_v4_7_1_sde.Messages.sdp_value
    media_gateway_v4_7_1_sde.Messages.optional media_gateway_v4_7_1_sde.Messages.value_of_null
    media_gateway_v4_7_1_sde.Gateway.on_offer media_gateway_v4_7_1_sde.Gateway.is_from_browser
    media_gateway_v4_7_1_sde.Text.contains media_gateway_v4_7_1_sde.Text.find
    media_gateway_v4_7_1_sde.Text.search
    media_gateway_v4_7_1_sde.Session.Handlers.handle_offer_from_ims
    media_gateway_v4_7_1_sde.Agents.Ims.handle_sdp_from_ims
    media_gateway_v4_7_1_sde.Sdp.audio_supported media_gateway_v4_7_1_sde.Agents.Ims.session_type
    media_gateway_v4_7_1_sde.Session.new_session media_gateway_v4_7_1_sde.Gateway.on_message
    media_gateway_v4_7_1_sde.Session.Handlers.handle_answer_from_web
    media_gateway_v4_7_1_sde.Agents.Web.new_web_agent
    media_gateway_v4_7_1_sde.Agents.Web.handle_sdp_from_web
    media_gateway_v4_7_1_sde.Session.Handlers.do_tailing_jobs
    media_gateway_v4_7_1_sde.Session.Handlers.send_offer_or_answer_to_ims
    media_gateway_v4_7_1_sde.Agents.Web.web_tailing_jobs media_gateway_v4_7_1_sde.Rtp.init
    media_gateway_v4_7_1_sde.Rtp.copy_key media_gateway_v4_7_1_sde.Timer.set_timer
    media_gateway_v4_7_1_sde.Base64.base64_decode media_gateway_v4_7_1_sde.Rtp.new_converter
    media_gateway_v4_7_1_sde.Agents.Ims.run_ims media_gateway_v4_7_1_sde.Agents.Ims.new_ims_agent
    media_gateway_v4_7_1_sde.Text.substr media_gateway_v4_7_1_sde.Agents.Codec.run message_value
    dispatch allocate deref is_session_stop
answered-Reach =
    ReachOnce.and_then (ReachOnce.and_then offered-Reach (allocates refl) tt)
      (receives (codes "crypto") {used = false} {g = answered.1} {sent = answered.2} refl refl)
      (allowed (codes "crypto") ready (read (codes "crypto")) refl (
        first-Unanswered (read (codes "crypto")) ready 1 (result_of a_session (deref 1 ready)) refl
          refl refl))

timers_safe_example :
    (s : Session) × (deref 1 answered.1 ≡ ok s)
    × (is_session_stop s ≡ false)
    × (s.timer_id ≡ 1)
    × (g : Gateway) × (on_timeout 1 answered.1 ≡ ok g)
timers_safe_example =
    timers_safe call_env (λ n. resources) 1 (record { timeout = 30; para = 1; id = 1 })
      answered-Reach timer_set

-- A second offer of the call.
messages_safe_example : (abort ≢ null_pointer) × (abort ≢ use_after_free)
unfolding handle_session_message map_find map_assign parser_session_message eq_text c_str
    media_gateway_v4_7_1_sde.Messages.parse_value media_gateway_v4_7_1_sde.Messages.read_field
    media_gateway_v4_7_1_sde.Messages.roap_value media_gateway_v4_7_1_sde.Messages.parse_roap
    media_gateway_v4_7_1_sde.Messages.read_sdp media_gateway_v4_7_1_sde.Messages.sdp_value
    media_gateway_v4_7_1_sde.Messages.optional media_gateway_v4_7_1_sde.Messages.value_of_null
    media_gateway_v4_7_1_sde.Gateway.on_offer media_gateway_v4_7_1_sde.Gateway.is_from_browser
    media_gateway_v4_7_1_sde.Text.contains media_gateway_v4_7_1_sde.Text.find
    media_gateway_v4_7_1_sde.Text.search
    media_gateway_v4_7_1_sde.Session.Handlers.handle_offer_from_ims
    media_gateway_v4_7_1_sde.Agents.Ims.handle_sdp_from_ims
    media_gateway_v4_7_1_sde.Sdp.audio_supported media_gateway_v4_7_1_sde.Agents.Ims.session_type
    media_gateway_v4_7_1_sde.Session.new_session media_gateway_v4_7_1_sde.Gateway.on_message
    media_gateway_v4_7_1_sde.Session.Handlers.handle_answer_from_web
    media_gateway_v4_7_1_sde.Agents.Web.new_web_agent
    media_gateway_v4_7_1_sde.Agents.Web.handle_sdp_from_web
    media_gateway_v4_7_1_sde.Session.Handlers.do_tailing_jobs
    media_gateway_v4_7_1_sde.Session.Handlers.send_offer_or_answer_to_ims
    media_gateway_v4_7_1_sde.Agents.Web.web_tailing_jobs media_gateway_v4_7_1_sde.Rtp.init
    media_gateway_v4_7_1_sde.Rtp.copy_key media_gateway_v4_7_1_sde.Timer.set_timer
    media_gateway_v4_7_1_sde.Base64.base64_decode media_gateway_v4_7_1_sde.Rtp.new_converter
    media_gateway_v4_7_1_sde.Agents.Ims.run_ims media_gateway_v4_7_1_sde.Agents.Ims.new_ims_agent
    media_gateway_v4_7_1_sde.Text.substr media_gateway_v4_7_1_sde.Agents.Codec.run message_value
    dispatch allocate deref is_session_stop
messages_safe_example =
    messages_safe call_env (λ n. resources) 2 [] offer_c abort answered-Reach refl refl

-- The callback has passed its test.
abbrev testing : Threads
testing = record { stopper = away; sleeper = tested; alive = true; in_pool = true }

-- Where `stopTimer` and the callback have both passed their tests, the second `delete` is one too
-- many.
deleted_twice :
    (do
      set ← step stopping created
      called ← step timing set
      passed_one ← step stopping called
      passed_both ← step timing passed_one
      once ← step stopping passed_both
      step timing once)
    ≡ fault use_after_free
unfolding step stop_step sleep_step
deleted_twice = refl

-- Where the timeout comes between `delete` and `pthread_cancel`, the thread reads what was deleted.
read_deleted :
    (do
      set ← step stopping created
      passed_one ← step stopping set
      once ← step stopping passed_one
      step timing once)
    ≡ fault use_after_free
unfolding step stop_step sleep_step
read_deleted = refl
