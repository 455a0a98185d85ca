-- ===== src/Valkey/Errors.antt =====
-- shotover/src/transforms/valkey/mod.rs: the errors of the valkey sinks.
use shotover_proxy.Prelude.{
  ℕ, List, [], ◌∷◌, Bytes, codes, bytes_eq, String, Option, none, some, if◌then◌else◌, ◌==◌,
}

pub data ValkeyError : Type 0 where
  not_authenticated not_authorized bad_credentials : ValkeyError
  other_error : Bytes → ValkeyError

-- `split_once(' ').map(|x| x.0)`
abbrev consed : ℕ → Option Bytes → Option Bytes
consed x none = none
consed x (some word) = some (x ∷ word)

unfoldable pub first_word : Bytes → Option Bytes
first_word [] = none
first_word (x ∷ xs) = let word = consed x (first_word xs) in if x == b' ' then some [] else word

abbrev pub of_first_word : Bytes → Option Bytes → ValkeyError
of_first_word text none = other_error text
of_first_word text (some word) =
    if bytes_eq word (codes "NOAUTH")
    then not_authenticated
    else if bytes_eq word (codes "NOPERM")
    then not_authorized
    else if bytes_eq word (codes "WRONGPASS")
    then bad_credentials
    else other_error text

unfoldable pub from_message : Bytes → ValkeyError
unfolding bytes_eq first_word
from_message text = of_first_word text (first_word text)

-- `Display`
abbrev pub show_error : ValkeyError → Bytes
show_error not_authenticated = codes "authentication is required"
show_error not_authorized = codes "user not authorized to perform action"
show_error bad_credentials = codes "username or password is incorrect"
show_error (other_error text) = text

pub data TransformError : Type 0 where
  upstream : ValkeyError → TransformError
  protocol : String → TransformError
  other : String → TransformError

unfoldable pub find_upstream : List TransformError → Option TransformError
find_upstream [] = none
find_upstream (upstream e ∷ es) = some (upstream e)
find_upstream (protocol e ∷ es) = find_upstream es
find_upstream (other e ∷ es) = find_upstream es

abbrev pub or_first : Option TransformError → List TransformError → Option TransformError
or_first (some e) es = some e
or_first none [] = none
or_first none (e ∷ es) = some e

unfoldable pub choose_upstream_or_first : List TransformError → Option TransformError
unfolding find_upstream
choose_upstream_or_first errors = or_first (find_upstream errors) errors
