-- ===== src/Control/Sample.antt =====
-- A printer and a parser of control messages that stand in for `serde_json` in tests: each string has
-- its length in front. Fractions are numbers.
use meshconf.Prelude.{
  ℕ, zero, suc, ◌≡◌, refl, List, [], ◌∷◌, ◌++◌, length, take, drop, take_append, drop_append,
  Result, ok, err, bad_json,
}
use meshconf.Control.{ControlMessage, hello, peer_list, congestion_feedback, PeerInfo, Json}

unfoldable pub print_string : List ℕ → List ℕ → List ℕ
print_string s rest = length s ∷ (s ++ rest)

pub parse_string : List ℕ → List ℕ × List ℕ
parse_string [] = ([], [])
parse_string (n ∷ xs) = (take n xs, drop n xs)

parse_string-print : (s rest : List ℕ) → parse_string (print_string s rest) ≡ (s, rest)
unfolding parse_string print_string
parse_string-print s rest = rw (take_append s rest, drop_append s rest) refl

unfoldable pub print_infos : List PeerInfo → List ℕ
print_infos [] = []
print_infos (i ∷ is) =
    print_string i.peer_id (print_string i.addr (print_string i.name (print_infos is)))

pub parse_infos : ℕ → List ℕ → List PeerInfo
parse_infos zero xs = []
parse_infos (suc n) xs =
    let (peer_id, xs1) = parse_string xs in
    let (addr, xs2) = parse_string xs1 in
    let (name, xs3) = parse_string xs2 in
    record { peer_id = peer_id; addr = addr; name = name } ∷ parse_infos n xs3

parse_infos-print : (is : List PeerInfo) → parse_infos (length is) (print_infos is) ≡ is
unfolding parse_infos print_infos
parse_infos-print [] = refl
parse_infos-print (i ∷ is) =
    rw
      (
        parse_string-print i.peer_id (print_string i.addr (print_string i.name (print_infos is))),
        parse_string-print i.addr (print_string i.name (print_infos is)),
        parse_string-print i.name (print_infos is),
        parse_infos-print is,
      )
      refl

unfoldable pub print : ControlMessage ℕ → List ℕ
print (hello addr name) = 0 ∷ print_string addr (print_string name [])
print (peer_list peers) = 1 ∷ length peers ∷ print_infos peers
print (congestion_feedback received dropped lost jitter) =
    2 ∷ received ∷ dropped ∷ lost ∷ jitter ∷ []

pub parse : List ℕ → Result (ControlMessage ℕ)
parse (zero ∷ xs) =
    let (addr, xs1) = parse_string xs in let (name, xs2) = parse_string xs1 in ok (hello addr name)
parse (suc zero ∷ n ∷ xs) = ok (peer_list (parse_infos n xs))
parse (suc (suc zero) ∷ received ∷ dropped ∷ lost ∷ jitter ∷ []) =
    ok (congestion_feedback received dropped lost jitter)
parse other = err bad_json

pub parse-print : (msg : ControlMessage ℕ) → parse (print msg) ≡ ok msg
unfolding parse print
parse-print (hello addr name) =
    rw (parse_string-print addr (print_string name []), parse_string-print name []) refl
parse-print (peer_list peers) = rw (parse_infos-print peers) refl
parse-print (congestion_feedback received dropped lost jitter) = refl

abbrev pub sample_json : Json (ControlMessage ℕ)
sample_json = record { to_vec = print; from_slice = parse; from_slice-to_vec = parse-print }
