-- ===== src/SubMg/Messages.antt =====
-- src/submg.cpp: the control messages.
use media_gateway_v4_7_1_sde.Base.{
  ℕ, ◌^◌, ◌<◌, ◌≡◌, refl, ap₂, arith, of_be32-be32, List, length, ◌++◌,
}
use media_gateway_v4_7_1_sde.SubMg.{CtrlMsg, ctrl_msg_bytes, read_ctrl_msg}

abbrev with_port_id : CtrlMsg → ℕ → ℕ → CtrlMsg
with_port_id m p i = record m { port = p; id = i }

-- A control message with a port of 16 bits and an id of 32 bits is read as it was written, and
-- whatever comes behind its eight bytes is not read.
pub read_ctrl_msg-ctrl_msg_bytes :
    (m : CtrlMsg) (rest : List ℕ)
    → m.port < 2 ^ 16
    → m.id < 2 ^ 32
    → (read_ctrl_msg (ctrl_msg_bytes m ++ rest) ≡ m) × (length (ctrl_msg_bytes m) ≡ 8)
unfolding read_ctrl_msg ctrl_msg_bytes
read_ctrl_msg-ctrl_msg_bytes m rest p i =
    (ap₂ (with_port_id m) (omega arith) (of_be32-be32 m.id i), refl)
