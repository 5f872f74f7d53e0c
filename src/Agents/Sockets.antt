-- ===== src/Agents/Sockets.antt =====
-- src/helper.cpp: the constructor, which asks for its sockets and for a port until it gets them.
-- What the system's calls and `rand` return is an argument, a list with one entry for each round;
-- `none` is a loop that still runs at the end of its list.
use media_gateway_v4_7_1_sde.Base.{
  ℕ, ◌+◌, ◌%◌, ◌^◌, ◌≡◌, ◌≤◌, refl, ap, arith, Bool, true, false, Option, none, some, List, [], ◌∷◌,
  ◌++◌, if◌then◌else◌, replicate, map, ℤ, eq_ℤ,
}
use media_gateway_v4_7_1_sde.Messages.{minus_one}
use media_gateway_v4_7_1_sde.Agents.{Helper, new_helper}

-- `do { fd = socket(...); } while (fd == -1)`: the descriptor, and the results not used.
unfoldable open_socket : List ℤ → Option (ℤ × List ℤ)
open_socket [] = none
open_socket (fd ∷ results) =
    let later = open_socket results in if eq_ℤ fd minus_one then later else some (fd, results)

abbrev listen_port_of : ℕ → ℕ
listen_port_of rand = (10001 + rand % 55000) % 2 ^ 16

-- The rounds that look for a port: what `rand` returns, and whether `bind` fails.
unfoldable bind_port : List (ℕ × Bool) → Option ℕ
bind_port [] = none
bind_port ((rand, fails) ∷ rounds) =
    let later = bind_port rounds in if fails then later else some (listen_port_of rand)

-- `Helper::Helper`: the two descriptors and the helper.
unfoldable construct : List ℤ → List (ℕ × Bool) → Option (ℤ × ℤ × Helper)
unfolding open_socket bind_port
construct sockets rounds = elim (open_socket sockets) [
  | none ↦ none
  | some (sendfd, results) ↦ elim (open_socket results) [
    | none ↦ none
    | some (listenfd, rest) ↦ elim (bind_port rounds) [
      | none ↦ none
      | some port ↦ some (sendfd, listenfd, new_helper port)
    ]
  ]
]

open_socket_lem :
    (n : ℕ) (fd : ℤ) (results : List ℤ)
    → eq_ℤ fd minus_one ≡ false
    → open_socket (replicate n minus_one ++ fd ∷ results) ≡ some (fd, results)
unfolding open_socket
open_socket_lem ℕ.zero fd results valid = rw valid refl
open_socket_lem (ℕ.suc n) fd results valid = open_socket_lem n fd results valid

-- Rounds in which `bind` fails are skipped, whatever `rand` returns in them.
bind_port_lem :
    (failed : List ℕ) (rand : ℕ) (rounds : List (ℕ × Bool))
    → bind_port (map (λ r. (r, true)) failed ++ (rand, false) ∷ rounds) ≡ some (listen_port_of rand)
unfolding bind_port
bind_port_lem [] rand rounds = refl
bind_port_lem (r ∷ failed) rand rounds = bind_port_lem failed rand rounds

-- However often `socket` and `bind` fail before they succeed, the constructor ends, with the first
-- descriptors that are valid and the first port that was free, which is between 10001 and 65000.
construct_lem :
    (a b : ℕ) (sendfd listenfd : ℤ) (results : List ℤ) (failed : List ℕ) (rand : ℕ)
    (rounds : List (ℕ × Bool))
    → eq_ℤ sendfd minus_one ≡ false
    → eq_ℤ listenfd minus_one ≡ false
    → (construct
          (replicate a minus_one ++ sendfd ∷ (replicate b minus_one ++ listenfd ∷ results))
          (map (λ r. (r, true)) failed ++ (rand, false) ∷ rounds)
        ≡ some (sendfd, listenfd, new_helper (10001 + rand % 55000)))
      × (10001 + rand % 55000 ≤ 65000)
unfolding construct
construct_lem a b sendfd listenfd results failed rand rounds s l = (
  rw
      (
        construct,
        open_socket_lem a sendfd (replicate b minus_one ++ listenfd ∷ results) s,
        open_socket_lem b listenfd results l,
        bind_port_lem failed rand rounds,
      )
      (ap (λ p. some (sendfd, listenfd, new_helper p)) (omega arith)),
  omega arith,
)
