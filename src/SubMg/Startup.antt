-- ===== src/SubMg/Startup.antt =====
-- src/submg.cpp, `run` up to its loop and the sockets that `select` watches; and `startFFmpeg` as
-- long as no server has connected.
use media_gateway_v4_7_1_sde.Base.{
  ℕ, negsuc, zero, suc, ◌+◌, ◌<◌, ◌≤◌, ◌≡◌, refl, ap, Bool, true, Option, none, some, List, [], ◌∷◌,
  Text, ℤ, eq_ℤ, if◌then◌else◌, Run, ok, fault, abort, arith, Bool-cases, inl, inr,
}
use Prim.Native.Nat.{max}
use media_gateway_v4_7_1_sde.Messages.{minus_one}
use media_gateway_v4_7_1_sde.SubMg.{
  SubMg, Caller, returned, choosing, get_vac_id, request, get_elem?,
}
use media_gateway_v4_7_1_sde.SubMg.System.Handshake.{result_of}
use media_gateway_v4_7_1_sde.SubMg.Ids.{IsFree, get_vac_id-IsFree}
use media_gateway_v4_7_1_sde.Agents.{SipCodec, set_destination, run_helper}
use media_gateway_v4_7_1_sde.Agents.Codec.{CodecConverter, run}

-- How the control thread starts: with the socket that it listens on, or it ends with a number.
pub data Startup : Type 0 where
  listening : ℤ → Startup
  ended : ℕ → Startup

-- `SubMG::run` up to its loop, with what `socket` returns and which of `bind` and `listen` fail.
unfoldable pub start_up : ℤ → Bool → Bool → Run Startup
start_up socket bind_fails listen_fails =
    if eq_ℤ socket minus_one
    then fault abort
    else if bind_fails
    then ok (ended 1)
    else if listen_fails
    then ok (ended 2)
    else ok (listening socket)

-- `maxsock`, from the listening socket on.
unfoldable pub max_sock : ℕ → List (Text × ℕ) → ℕ
max_sock acc [] = acc
max_sock acc ((ip, fd) ∷ servers) = max_sock (max acc fd) servers

abbrev socket_or_zero : Option (Text × ℕ) → ℕ
socket_or_zero none = 0
socket_or_zero (some a) = a.1

max_sock-acc : (acc : ℕ) (servers : List (Text × ℕ)) → acc ≤ max_sock acc servers
unfolding max_sock
max_sock-acc acc [] = omega arith
max_sock-acc acc ((ip, fd) ∷ servers) = omega (arith, max_sock-acc (max acc fd) servers)

-- `select` looks at the sockets below `maxsock + 1`: at the listening socket and every server's.
max_sock_covers :
    (sockfd : ℕ) (servers : List (Text × ℕ)) (i : ℕ) (ip : Text) (fd : ℕ)
    → get_elem? servers i ≡ some (ip, fd)
    → (sockfd < max_sock sockfd servers + 1) × (fd < max_sock sockfd servers + 1)
unfolding max_sock get_elem?
max_sock_covers sockfd [] i ip fd e = absurd cc
max_sock_covers sockfd ((x, f) ∷ servers) zero ip fd e =
    let same : f ≡ fd = ap (λ (o : Option (Text × ℕ)). socket_or_zero o) e in
    omega (arith, same, max_sock-acc (max sockfd f) servers)
max_sock_covers sockfd ((x, f) ∷ servers) (suc i) ip fd e =
    let below = max_sock_covers (max sockfd f) servers i ip fd e in omega (arith, below.0, below.1)

refused_at :
    (port codec n : ℕ) (s : SubMg)
    → get_vac_id s ≡ ok (n, record s { id_cnt = n })
    → s.ava_sub_mg ≡ []
    → request port codec s ≡ ok (record s { id_cnt = n }, returned (negsuc 0) none)
unfolding request
refused_at port codec n s e empty =
    rw e (refused n (record s { id_cnt = n }) s.ava_sub_mg refl empty)
  where
    refused :
        (idx : ℕ) (t : SubMg) (servers : List (Text × ℕ))
        → t.ava_sub_mg ≡ servers
        → servers ≡ []
        → ◌≡◌ {A = Run (SubMg × Caller)}
            (elim t.ava_sub_mg [
              | [] ↦ ok (t, returned (negsuc 0) none)
              | server ∷ rest ↦ ok (t, choosing port codec idx)
            ])
            (ok (t, returned (negsuc 0) none))
    refused idx t [] e none_ = simp e
    refused idx t (server ∷ rest) e none_ = absurd cc

-- As long as no server has connected and an id is free: `startFFmpeg` returns -1, whatever it is
-- asked for, before it chooses a server, so that it sends nothing and stores no address; only the
-- last id that was given changes. A converter that is run then, with H264 on, starts its thread and
-- sends to the empty address and to whatever `destPort` held.
pub no_server :
    (port codec : ℕ) (s : SubMg) (id : ℕ) (sip : SipCodec) (unset : ℕ) (c : CodecConverter)
    → s.ava_sub_mg ≡ []
    → IsFree id s.curstate
    → s.id_cnt < 0x7fffffff
    → sip.h264 ≡ true
    → (n : ℕ) × (request port codec s ≡ ok (record s { id_cnt = n }, returned (negsuc 0) none))
      × ((run sip (λ p k. result_of (returned (negsuc 0) none)) unset c).0.helper
          ≡ run_helper (set_destination [] unset c.helper))
unfolding run
no_server port codec s id sip unset c empty free below on =
    let (n, e, h) = get_vac_id-IsFree s id free below in
    (
      n,
      refused_at port codec n s e empty,
      elim (Bool-cases c.ims_to_web) [
        | inl out ↦ rw (out, on) refl
        | inr back ↦ rw (back, on) refl
      ],
    )
