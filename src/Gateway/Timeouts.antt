-- ===== src/Gateway/Timeouts.antt =====
-- src/timer.cpp and src/mediasession.cpp: two timers that are set for one session.
use media_gateway_v4_7_1_sde.Base.{ℕ, nat_eq, Text}
use media_gateway_v4_7_1_sde.Timer.{timer_done}
use media_gateway_v4_7_1_sde.Text.{text_eq}
use media_gateway_v4_7_1_sde.Session.{Session, delete_session}
use media_gateway_v4_7_1_sde.Gateway.{Gateway, store}

-- The process when a timer of a silent session has gone off.
abbrev silenced : ℕ → ℕ → Session → Gateway → Gateway
silenced i p s g = record (store p (delete_session s) g) { timers = timer_done i g.timers }
