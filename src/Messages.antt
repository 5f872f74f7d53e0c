-- ===== src/Messages.antt =====
-- src/messageparser.cpp and include/commontype.h: signalling messages, to JSON and back.
-- JsonCpp (include/json/) is another project's library: `Json` has the calls that are made of it.
pub mod Laws
pub mod RoundTrip
use media_gateway_v4_7_1_sde.Base.{
  ℕ, Bool, true, false, not, ◌||◌, Option, none, some, List, [], ◌∷◌, if◌then◌else◌, Text, codes, ℤ,
  pos, negsuc, eq_ℤ, Run, ok, fault, ◌>>=◌,
}

-- `Json::Value` and its operations. A call that JsonCpp answers by an exception or a failed
-- assertion (a member of what is no object, `asInt` of a text) is a fault.
pub record Json : Type 1 where
  pub Value : Type 0
  -- an object in the making: what a value that was null becomes when its members are set
  pub Object : Type 0
  pub empty : Object
  pub of_object : Object → Value
  pub of_int : ℤ → Value
  pub of_string : Text → Value
  pub of_bool : Bool → Value
  pub member : Value → Text → Run Value
  pub with_member : Object → Text → Value → Object
  pub is_null : Value → Bool
  pub as_int : Value → Run ℤ
  pub as_string : Value → Run Text
  pub as_bool : Value → Run Bool
  pub parse : Text → Option Value
  pub write : Value → Text

-- `enum RoapType`; a value of the enum may be any number that a message holds.
abbrev pub offer : ℤ
offer = pos 1

abbrev pub answer : ℤ
answer = pos 2

abbrev pub ok_r : ℤ
ok_r = pos 3

abbrev pub candidate : ℤ
candidate = pos 4

abbrev pub shutdown_r : ℤ
shutdown_r = pos 5

abbrev pub minus_one : ℤ
minus_one = negsuc 0

pub record RoapMessage : Type 0 where
  pub roap_type : ℤ
  pub seq : ℤ
  pub label : ℤ
  pub error : ℤ
  pub offer_session_id : Text
  pub answer_session_id : Text
  pub sdp : Text
  pub tiebreaker : Text
  pub more_coming_flag : Bool
  pub msg_size : ℤ
  pub msg_content : Text

pub record SessionMessage : Type 0 where
  pub msg_type : ℤ
  pub from : Text
  pub to : Text
  pub roap : RoapMessage

-- The fields that the constructors leave without a value.
pub record Unset : Type 0 where
  pub some_type : ℤ
  pub some_roap_type : ℤ
  pub some_flag : Bool

unfoldable pub new_message : Unset → SessionMessage
new_message u = record {
  msg_type = u.some_type;
  from = [];
  to = [];
  roap = record {
    roap_type = u.some_roap_type;
    seq = minus_one;
    label = minus_one;
    error = minus_one;
    offer_session_id = [];
    answer_session_id = [];
    sdp = [];
    tiebreaker = [];
    more_coming_flag = u.some_flag;
    msg_size = minus_one;
    msg_content = [];
  };
}

abbrev pub has_description : ℤ → Bool
has_description t = eq_ℤ t offer || eq_ℤ t answer

module _ (J : Json) where
  open J use {
    Value, empty, of_object, of_int, of_string, of_bool, member, with_member, is_null, as_int,
    as_string, as_bool, parse, write,
  }

  -- `if(!v[key].isNull()) x = v[key].as...();`
  unfoldable pub read_field : {A : Type 0} → (Value → Run A) → Value → Text → A → Run A
  read_field convert v key old = do x ← member v key; if is_null x then ok old else convert x

  -- The field `sdp`: an object with a member `sdp` in an offer or an answer, a text otherwise.
  unfoldable pub read_sdp : Value → ℤ → Text → Run Text
  unfolding read_field
  read_sdp v t old = do
    x ← member v (codes "sdp")
    if is_null x
        then ok []
        else if has_description t
        then read_field as_string x (codes "sdp") old
        else as_string x

  unfoldable pub parse_roap : Value → RoapMessage → Run RoapMessage
  parse_roap v m = do
    t ← read_field as_int v (codes "type") m.roap_type
    o ← read_field as_string v (codes "offerSessionId") m.offer_session_id
    a ← read_field as_string v (codes "answerSessionId") m.answer_session_id
    s ← read_field as_int v (codes "seq") m.seq
    d ← read_sdp v t m.sdp
    l ← read_field as_int v (codes "label") m.label
    e ← read_field as_int v (codes "error") m.error
    f ← read_field as_bool v (codes "moreComingFlag") m.more_coming_flag
    b ← read_field as_string v (codes "tiebreaker") m.tiebreaker
    z ← read_field as_int v (codes "msgSize") m.msg_size
    c ← read_field as_string v (codes "msgContent") m.msg_content
    ok (record {
      roap_type = t;
      seq = s;
      label = l;
      error = e;
      offer_session_id = o;
      answer_session_id = a;
      sdp = d;
      tiebreaker = b;
      more_coming_flag = f;
      msg_size = z;
      msg_content = c;
    })

  unfoldable pub parse_value : Value → SessionMessage → Run SessionMessage
  parse_value v m = do
    t ← read_field as_int v (codes "type") m.msg_type
    f ← read_field as_string v (codes "from") m.from
    o ← read_field as_string v (codes "to") m.to
    r ← read_field (λ x. parse_roap x m.roap) v (codes "roap") m.roap
    ok (record { msg_type = t; from = f; to = o; roap = r })

  -- `MessageParser::parserSessionMessage`
  unfoldable pub parser_session_message : Unset → Text → Run SessionMessage
  parser_session_message u message = elim (parse message) [
    | none ↦ ok (new_message u)
    | some v ↦ parse_value v (new_message u)
  ]

  -- `Json::Value(NULL)`: where an `int` and a pointer have one size, NULL is an `int`, and the
  -- constructor from `Int` is taken.
  unfoldable pub value_of_null : Value
  value_of_null = of_int (pos 0)

  unfoldable pub optional : ℤ → Value
  optional n = if eq_ℤ n minus_one then value_of_null else of_int n

  unfoldable pub sdp_value : ℤ → Text → Value
  sdp_value t sdp =
      if has_description t
      then of_object (
          with_member (with_member empty (codes "sdp") (of_string sdp)) (codes "type")
            (of_string (if eq_ℤ t offer then codes "offer" else codes "answer")))
      else of_string sdp

  unfoldable pub roap_value : RoapMessage → Value
  roap_value m =
      let v1 = with_member empty (codes "type") (of_int m.roap_type) in
      let v2 = with_member v1 (codes "offerSessionId") (of_string m.offer_session_id) in
      let v3 = with_member v2 (codes "answerSessionId") (of_string m.answer_session_id) in
      let v4 = with_member v3 (codes "seq") (of_int m.seq) in
      let v5 = with_member v4 (codes "sdp") (sdp_value m.roap_type m.sdp) in
      let v6 = with_member v5 (codes "label") (optional m.label) in
      let v7 = with_member v6 (codes "error") (optional m.error) in
      let v8 = with_member v7 (codes "msgSize") (optional m.msg_size) in
      let v9 = with_member v8 (codes "moreComingFlag") (of_bool m.more_coming_flag) in
      let v10 = with_member v9 (codes "tiebreaker") (of_string m.tiebreaker) in
      of_object (with_member v10 (codes "msgContent") (of_string m.msg_content))

  unfoldable pub message_value : SessionMessage → Value
  message_value m =
      let v1 = with_member empty (codes "type") (of_int m.msg_type) in
      let v2 = with_member v1 (codes "from") (of_string m.from) in
      let v3 = with_member v2 (codes "to") (of_string m.to) in
      of_object (with_member v3 (codes "roap") (roap_value m.roap))

  -- `MessageParser::packageSessionMessage`
  unfoldable pub package_session_message : SessionMessage → Text
  package_session_message m = write (message_value m)
