-- ===== src/RtpHeader.antt =====
-- include/rtpdefine.h, `RTP_HEADER`, over the bytes of a packet: an `unsigned long` has four bytes,
-- as the comments there say, and the first bit field of a byte has its lowest bits.
pub mod Fields
use media_gateway_v4_7_1_sde.Base.{ℕ, ◌+◌, ◌*◌, ◌/◌, ◌%◌, ◌^◌, List, get_or, set, take, drop}

unfoldable pub payload : List ℕ → ℕ
payload packet = get_or packet 1 0 % 128

unfoldable pub marker : List ℕ → ℕ
marker packet = get_or packet 1 0 / 128

-- `header->payload = v`, for the low seven bits of `v`, in the array that holds the packet.
unfoldable pub set_payload : ℕ → List ℕ → List ℕ
set_payload v packet = set packet 1 (get_or packet 1 0 / 128 * 128 + v % 128)

-- `header->ssrc`, in memory
unfoldable pub ssrc : List ℕ → List ℕ
ssrc packet = take 4 (drop 8 packet)

-- `header->ssrc = htonl(n)`
unfoldable pub set_ssrc : ℕ → List ℕ → List ℕ
set_ssrc n packet =
    set (set (set (set packet 8 (n / 2 ^ 24 % 256)) 9 (n / 2 ^ 16 % 256)) 10 (n / 2 ^ 8 % 256)) 11
      (n % 256)
