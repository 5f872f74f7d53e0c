-- ===== src/Tests/Codecs.antt =====
-- src/base64.cpp, src/etcp.cpp, src/rtpconverter.cpp and src/candidate.cpp at concrete inputs.
use media_gateway_v4_7_1_sde.Base.{
  ℕ, pos, ◌≡◌, refl, ◌-◌, ◌<◌, some, List, [], ◌∷◌, ◌++◌, arith, length, replicate, take, drop,
  codes, IsBytes, ok, fault, buffer_overflow, be32, inl, inr, ◌⊎◌, ◌≤◌, ◌↔◌,
}
use media_gateway_v4_7_1_sde.Base64.{base64_encode, base64_decode}
use media_gateway_v4_7_1_sde.Base64.Reference.{rfc4648, base64_encode-eq-rfc4648}
use media_gateway_v4_7_1_sde.Base64.RoundTrip.{decode-encode}
use media_gateway_v4_7_1_sde.Etcp.{
  Event, segment, interrupted, count, readn, packet, refused, read_packet, send_packet, c_str,
  buffer_size,
}
use media_gateway_v4_7_1_sde.Etcp.Stream.{bytes_of, IsClean, readn_takes}
use media_gateway_v4_7_1_sde.Etcp.Packets.{read_packet-send_packet, read_packet_oversize}
use media_gateway_v4_7_1_sde.Rtp.{Converter, init, new_converter, policy_of, outbound}
use media_gateway_v4_7_1_sde.Rtp.Keys.{init_overflow}
use media_gateway_v4_7_1_sde.Candidate.{new_candidate, kind_of, is_int}
use media_gateway_v4_7_1_sde.Candidate.Lines.{IsWord, IsNumber, seven}
use media_gateway_v4_7_1_sde.Candidate.Overflow.{new_candidate_reads, new_candidate_overflow}
use media_gateway_v4_7_1_sde.Text.{digits_value, is_space, is_digit}
use media_gateway_v4_7_1_sde.Tests.Fixtures.{host_line, nice, srtp}

abbrev some_bytes : List ℕ
some_bytes = 1 ∷ 200 ∷ 33 ∷ 255 ∷ []

some_bytes-IsBytes : IsBytes some_bytes
some_bytes-IsBytes = (omega arith, (omega arith, (omega arith, (omega arith, tt))))

decode-encode_example : base64_decode (base64_encode some_bytes) ≡ some_bytes
decode-encode_example = decode-encode some_bytes some_bytes-IsBytes

base64_encode-eq-rfc4648_example : base64_encode some_bytes ≡ rfc4648 some_bytes
base64_encode-eq-rfc4648_example = base64_encode-eq-rfc4648 some_bytes some_bytes-IsBytes

abbrev cut : List Event
cut = segment 0 (0 ∷ []) ∷ interrupted ∷ segment 0 (3 ∷ 97 ∷ []) ∷ segment 98 (99 ∷ 1 ∷ []) ∷ []

readn_takes_example :
    (rest : List Event) × (readn 5 cut
      ≡ count (length (take 5 (bytes_of cut))) (take 5 (bytes_of cut)) rest)
    × (bytes_of rest ≡ drop 5 (bytes_of cut))
    × IsClean rest
readn_takes_example = readn_takes 5 cut tt

read_packet-send_packet_example :
    (rest : List Event) × (read_packet buffer_size cut ≡ packet (c_str (codes "abc")) rest)
    × (bytes_of rest ≡ 1 ∷ [])
    × IsClean rest
unfolding c_str send_packet
read_packet-send_packet_example =
    read_packet-send_packet (codes "abc") (be32 3 ++ codes "abc") (1 ∷ []) cut refl tt refl

read_packet_oversize_example :
    (rest : List Event) × (read_packet 2 cut ≡ refused rest)
    × (bytes_of rest ≡ 1 ∷ [])
    × IsClean rest
read_packet_oversize_example =
    read_packet_oversize 2 (97 ∷ 98 ∷ 99 ∷ []) (1 ∷ []) cut (omega arith) (omega arith)
      (omega arith) tt refl

abbrev old_converter : Converter
old_converter = new_converter (replicate 30 0) (replicate 30 0)

zeros-IsBytes : IsBytes (replicate 30 0)
zeros-IsBytes = ground arith

init_overflow_example :
    (init srtp (codes "AAAA") (codes "AAAA") old_converter ≡ fault buffer_overflow) ↔ (
      (30 < length (base64_decode (codes "AAAA")))
      ⊎ ((length (base64_decode (codes "AAAA")) ≤ 30)
          × (srtp.srtp_create (
                policy_of outbound (
                  base64_decode (codes "AAAA")
                  ++ replicate (30 - length (base64_decode (codes "AAAA"))) 0))
              ≡ 0)
          × (30 < length (base64_decode (codes "AAAA")))))
init_overflow_example = init_overflow srtp (codes "AAAA") (codes "AAAA") old_converter

one-IsWord : IsWord (codes "1")
unfolding is_space
one-IsWord = (refl, tt)

two-IsNumber : IsNumber (codes "2")
unfolding is_digit
two-IsNumber = (refl, tt)

udp-IsWord : IsWord (codes "udp")
unfolding is_space
udp-IsWord = (refl, (refl, (refl, tt)))

priority-IsNumber : IsNumber (codes "77")
unfolding is_digit
priority-IsNumber = (refl, (refl, tt))

address-IsWord : IsWord (codes "10.0.0.1")
unfolding is_space
address-IsWord = (refl, (refl, (refl, (refl, (refl, (refl, (refl, (refl, tt))))))))

port-IsNumber : IsNumber (codes "5000")
unfolding is_digit
port-IsNumber = (refl, (refl, (refl, (refl, tt))))

long-IsWord : IsWord (codes "2001:db8::ff00:42")
unfolding is_space
long-IsWord = (
  refl,
  (
    refl,
    (
      refl,
      (
        refl,
        (
          refl,
          (
            refl,
            (
              refl,
              (refl, (refl, (refl, (refl, (refl, (refl, (refl, (refl, (refl, (refl, tt)))))))))),
            ),
          ),
        ),
      ),
    ),
  ),
)

new_candidate_reads_example :
    new_candidate nice host_line
    ≡ ok (record {
      kind = kind_of host_line;
      foundation = codes "1";
      component_id = 2;
      priority = 77;
      ip = some (codes "10.0.0.1");
      port = some (pos 5000);
    })
unfolding is_int digits_value is_digit
new_candidate_reads_example =
    new_candidate_reads nice (codes "1") (codes "2") (codes "udp") (codes "77") (codes "10.0.0.1")
      (codes "5000") (codes "udp") (codes "host") one-IsWord two-IsNumber udp-IsWord
      priority-IsNumber address-IsWord port-IsNumber udp-IsWord (omega arith) (omega arith)
      (omega arith) (omega arith) refl refl refl

-- An IPv6 address.
new_candidate_overflow_example :
    new_candidate nice (
      seven
        (codes "1")
        (codes "2")
        (codes "udp")
        (codes "77")
        (codes "2001:db8::ff00:42")
        (codes "5000")
        (codes "udp")
        (codes "host"))
    ≡ fault buffer_overflow
new_candidate_overflow_example =
    new_candidate_overflow nice (codes "1") (codes "2") (codes "udp") (codes "77")
      (codes "2001:db8::ff00:42") (codes "5000") (codes "udp") (codes "host") one-IsWord
      two-IsNumber udp-IsWord priority-IsNumber long-IsWord port-IsNumber udp-IsWord
      (inr (inr (inl (omega arith))))
