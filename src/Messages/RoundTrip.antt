-- ===== src/Messages/RoundTrip.antt =====
-- src/messageparser.cpp: a message that is packed and parsed again.
use media_gateway_v4_7_1_sde.Base.{
  ◌≡◌, false, some, Text, ℤ, pos, eq_ℤ, ok, arith, if◌then◌else◌, Bool-cases, inl, inr,
}
use media_gateway_v4_7_1_sde.Text.{eq_text}
use media_gateway_v4_7_1_sde.Messages.{
  Json, SessionMessage, RoapMessage, Unset, new_message, minus_one, has_description, read_field,
  read_sdp, parse_roap, parse_value, parser_session_message, optional, value_of_null, sdp_value,
  roap_value, message_value, package_session_message,
}
use media_gateway_v4_7_1_sde.Messages.Laws.{JsonLaws}

-- What the code makes of -1, which stands for an absent number.
abbrev pub absent_to_zero : ℤ → ℤ
absent_to_zero n = if eq_ℤ n minus_one then pos 0 else n

abbrev pub received_roap : RoapMessage → RoapMessage
received_roap m = record m {
  label = absent_to_zero m.label;
  error = absent_to_zero m.error;
  msg_size = absent_to_zero m.msg_size;
}

abbrev pub received : SessionMessage → SessionMessage
received m = record m { roap = received_roap m.roap }

module _ (J : Json) (L : JsonLaws J) where
  open J use {
    Value, member, is_null, as_int, as_string, as_bool, of_int, of_string, of_bool, with_member,
    empty, of_object,
  }
  open L use {
    is_null-of_int, is_null-of_string, is_null-of_bool, is_null-with_member, as_int-of_int,
    as_string-of_string, as_bool-of_bool, member-with_member,
  }

  optional-eq : (n : ℤ) → optional J n ≡ of_int (absent_to_zero n)
  unfolding optional value_of_null
  optional-eq n = ground arith

  read_sdp-roap_value :
      (m : RoapMessage) (old : Text) → read_sdp J (roap_value J m) m.roap_type old ≡ ok m.sdp
  unfolding read_sdp roap_value read_field sdp_value eq_text
  read_sdp-roap_value m old = elim (Bool-cases (has_description m.roap_type)) [
    | inl yes_sdp ↦
        simp
          (member-with_member, yes_sdp, is_null-with_member, is_null-of_string, as_string-of_string)
    | inr plain ↦ simp (member-with_member, plain, is_null-of_string, as_string-of_string)
  ]

  is_null-of_roap : (m : RoapMessage) → is_null (roap_value J m) ≡ false
  unfolding roap_value
  is_null-of_roap m = is_null-with_member _ _ _

  parse_roap-roap_value :
      (m n : RoapMessage) → parse_roap J (roap_value J m) n ≡ ok (received_roap m)
  unfolding parse_roap roap_value read_field eq_text
  parse_roap-roap_value m n = simp (
    member-with_member, optional-eq, is_null-of_int, as_int-of_int, is_null-of_string,
    as_string-of_string, is_null-of_bool, as_bool-of_bool, read_sdp-roap_value,
  )

  -- A message that is packed into a JSON object and read from it again is the same message, but
  -- that label, error and size of -1 have become 0. No field that the constructor leaves without
  -- a value shows.
  pub parse_value-message_value :
      (m : SessionMessage) (u : Unset)
      → parse_value J (message_value J m) (new_message u) ≡ ok (received m)
  unfolding parse_value message_value read_field eq_text
  parse_value-message_value m u = simp (
    member-with_member, is_null-of_int, as_int-of_int, is_null-of_string, as_string-of_string,
    is_null-of_roap, parse_roap-roap_value,
  )

  -- If JsonCpp parses the text that it wrote of a message's object to that object, then a message that
  -- is packed and parsed is the same message, but that label, error and size of -1 have become 0.
  pub parser-package :
      (m : SessionMessage) (u : Unset)
      → J.parse (J.write (message_value J m)) ≡ some (message_value J m)
      → parser_session_message J u (package_session_message J m) ≡ ok (received m)
  unfolding parser_session_message package_session_message
  parser-package m u written = rw (written, parser_session_message) (parse_value-message_value m u)
