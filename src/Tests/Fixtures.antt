-- ===== src/Tests/Fixtures.antt =====
-- Concrete libraries, messages and sessions.
use media_gateway_v4_7_1_sde.Base.{
  refl, Bool, true, false, none, some, [], if◌then◌else◌, Text, codes, ℤ, pos, Run, ok, fault,
  abort, replicate,
}
use media_gateway_v4_7_1_sde.Text.{eq_text}
use media_gateway_v4_7_1_sde.Candidate.{Nice}
use media_gateway_v4_7_1_sde.Candidate.Lines.{seven}
use media_gateway_v4_7_1_sde.Rtp.{Srtp, new_converter}
use media_gateway_v4_7_1_sde.Messages.{Json, Unset, SessionMessage, minus_one}
use media_gateway_v4_7_1_sde.Messages.Laws.{JsonLaws}
use media_gateway_v4_7_1_sde.Agents.{main_codecs, new_helper}
use media_gateway_v4_7_1_sde.Agents.Codec.{new_codec_converter}
use media_gateway_v4_7_1_sde.Agents.Ims.{new_ims_agent, run_ims}
use media_gateway_v4_7_1_sde.Agents.Web.{new_web_agent}
use media_gateway_v4_7_1_sde.Session.{Agents, Env, Resources}

pub data Value : Type 0 where
  null_value : Value
  int_value : ℤ → Value
  text_value : Text → Value
  bool_value : Bool → Value
  -- an object with one more member
  member_value : Value → Text → Value → Value

abbrev is_null : Value → Bool
is_null null_value = true
is_null (int_value n) = false
is_null (text_value s) = false
is_null (bool_value b) = false
is_null (member_value v k x) = false

abbrev member : Value → Text → Run Value
member null_value j = ok null_value
member (int_value n) j = fault abort
member (text_value s) j = fault abort
member (bool_value b) j = fault abort
member (member_value v k x) j = if eq_text k j then ok x else member v j

abbrev as_int : Value → Run ℤ
as_int null_value = ok (pos 0)
as_int (int_value n) = ok n
as_int (text_value s) = fault abort
as_int (bool_value b) = ok (pos (if b then 1 else 0))
as_int (member_value v k x) = fault abort

abbrev as_string : Value → Run Text
as_string null_value = ok []
as_string (int_value n) = fault abort
as_string (text_value s) = ok s
as_string (bool_value b) = fault abort
as_string (member_value v k x) = fault abort

abbrev as_bool : Value → Run Bool
as_bool null_value = ok false
as_bool (int_value n) = fault abort
as_bool (text_value s) = fault abort
as_bool (bool_value b) = ok b
as_bool (member_value v k x) = fault abort

-- A JSON library for one text, which stands for one value.
abbrev pub json_of : Text → Value → Json
json_of text value = record {
  Value = Value;
  Object = Value;
  empty = null_value;
  of_object = λ o. o;
  of_int = int_value;
  of_string = text_value;
  of_bool = bool_value;
  member = member;
  with_member = member_value;
  is_null = is_null;
  as_int = as_int;
  as_string = as_string;
  as_bool = as_bool;
  parse = λ t. if eq_text t text then some value else none;
  write = λ v. text;
}

pub json-laws : (text : Text) (value : Value) → JsonLaws (json_of text value)
json-laws text value = record {
  is_null-of_int = λ n. refl;
  is_null-of_string = λ s. refl;
  is_null-of_bool = λ b. refl;
  is_null-with_member = λ v x k. refl;
  as_int-of_int = λ n. refl;
  as_string-of_string = λ s. refl;
  as_bool-of_bool = λ b. refl;
  member-with_member = λ v x k j. refl;
}

abbrev pub nice : Nice
nice = record {
  foundation_size = 33;
  new_foundation = [];
  new_component = 0;
  new_priority = 0;
  out_of_range = λ w. pos 0;
}

-- A library that makes every session and leaves the packets as they are.
abbrev pub srtp : Srtp
srtp = record {
  srtp_create = λ p. 0;
  srtp_protect = λ s b. (0, b);
  srtp_unprotect = λ s b. (0, b);
  srtp_protect_rtcp = λ s b. (0, b);
}

abbrev pub unset : Unset
unset = record { some_type = pos 7; some_roap_type = pos 7; some_flag = true }

abbrev pub message_of : ℤ → Text → Text → SessionMessage
message_of type id sdp = record {
  msg_type = pos 1;
  from = codes "alice";
  to = codes "bob";
  roap = record {
    roap_type = type;
    seq = pos 1;
    label = minus_one;
    error = pos 5;
    offer_session_id = id;
    answer_session_id = codes "y";
    sdp = sdp;
    tiebreaker = codes "t";
    more_coming_flag = false;
    msg_size = minus_one;
    msg_content = [];
  };
}

abbrev pub env : Env
env = record {
  json = json_of (codes "{}") null_value;
  nice = nice;
  srtp = srtp;
  sip = main_codecs;
  ffmpeg_reply = λ port codec. some (codes "127.0.0.1", port);
  heap = record { next = 1; cells = [] };
  unset = unset;
  unset_port = 0;
  unset_payload = pos 0;
  unset_keys = replicate 30 0;
  disconnected = 0;
  send_fails = λ bytes. false;
}

abbrev pub resources : Resources
resources = record {
  port_a = 30000;
  port_b = 30001;
  port_c = 30002;
  port_d = 30003;
  ufrag = codes "user";
  pwd = codes "secret";
}

-- A host candidate of the second component.
abbrev pub host_line : Text
host_line =
    seven (codes "1") (codes "2") (codes "udp") (codes "77") (codes "10.0.0.1") (codes "5000")
      (codes "udp") (codes "host")

-- The agents of `new_session`.
abbrev pub new_agents : Agents
new_agents = record {
  web_to_ims = new_codec_converter false (new_helper 30000);
  ims_to_web = new_codec_converter true (new_helper 30001);
  web =
      new_web_agent 0 (codes "user") (codes "secret")
        (new_converter (replicate 30 0) (replicate 30 0));
  ims = run_ims (new_ims_agent main_codecs (pos 0) (new_helper 30002) (new_helper 30003));
}
