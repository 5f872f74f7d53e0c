-- ===== src/Tests/Signalling.antt =====
-- src/messageparser.cpp and src/timer.cpp at concrete inputs.
use media_gateway_v4_7_1_sde.Base.{◌≡◌, refl, codes, ok}
use media_gateway_v4_7_1_sde.Messages.{
  Json, offer, SessionMessage, message_value, parser_session_message, package_session_message,
  new_message, parse_value, roap_value, sdp_value, optional, value_of_null,
}
use media_gateway_v4_7_1_sde.Text.{eq_text}
use media_gateway_v4_7_1_sde.Messages.RoundTrip.{
  received, parse_value-message_value, parser-package,
}
use media_gateway_v4_7_1_sde.Tests.Fixtures.{json_of, json-laws, null_value, unset, message_of}

abbrev an_offer : SessionMessage
an_offer = message_of offer (codes "id") (codes "v=0")

abbrev any_json : Json
any_json = json_of (codes "{}") null_value

parse_value-message_value_example :
    parse_value any_json (message_value any_json an_offer) (new_message unset)
    ≡ ok (received an_offer)
parse_value-message_value_example =
    parse_value-message_value any_json (json-laws (codes "{}") null_value) an_offer unset

-- The library for the text of this offer.
abbrev offer_json : Json
offer_json = json_of (codes "{}") (message_value any_json an_offer)

parser-package_example :
    parser_session_message offer_json unset (package_session_message offer_json an_offer)
    ≡ ok (received an_offer)
unfolding message_value eq_text roap_value sdp_value optional value_of_null
parser-package_example =
    parser-package offer_json (json-laws (codes "{}") (message_value any_json an_offer)) an_offer
      unset refl
