-- ===== src/Messaging/Poller/Ports.antt =====
-- The port that a bound socket has.
use zmf.Prelude.{ℕ, ◌^◌, ◌<◌, ◌≡◌, refl, true, Bytes, none, some, [], ◌∷◌, ◌++◌, All, arith}
use zmf.Prelude.Decimal.{to_string}
use zmf.Prelude.Decimal.Parse.{stoi, stoi_of_to_string, is_digit, to_string-digits}
use zmf.Prelude.Int.{pos}
use zmf.Messaging.Poller.{after_last_colon, extract_port}

no_colon : (s : Bytes) → All (λ c. is_digit c ≡ true) s → after_last_colon s ≡ none
unfolding after_last_colon
no_colon [] h = refl
no_colon (c ∷ s) (d, h) = ground (arith, no_colon s h)

after_last_colon-append :
    (front s : Bytes)
    → All (λ c. is_digit c ≡ true) s
    → after_last_colon (front ++ b':' ∷ s) ≡ some s
unfolding after_last_colon
after_last_colon-append [] s h = ground (arith, no_colon s h)
after_last_colon-append (c ∷ front) s h = ground (arith, after_last_colon-append front s h)

-- `extractPort` gives the port that stands in decimal behind the last colon of an endpoint,
-- whatever stands in front of it.
pub extract_port_lem :
    (front : Bytes) (port : ℕ)
    → port < 2 ^ 16
    → extract_port (front ++ b':' ∷ to_string port) ≡ some port
unfolding extract_port
extract_port_lem front port small =
    let read : stoi (to_string port) ≡ some (pos port) = stoi_of_to_string port (omega arith) in
    rw (after_last_colon-append front (to_string port) (to_string-digits port))
      (ground (arith, read))
