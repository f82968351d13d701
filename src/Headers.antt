-- ===== src/Headers.antt =====
-- product/src/transport/headers.rs: the headers that are forwarded. A header map is the list of its
-- names and values; a name is in lower case, as `HeaderName` keeps it. `to_str`, which a value has
-- where it is visible ASCII, and the parsers of names and values are parameters.
pub mod Scrubbed
pub mod Credentials
pub mod Local
pub mod Connection
use deskquota.Common.{
  Bool, List, Option, Text, [], any, codes, contains, if◌then◌else◌, length, lowercase, ltb, map,
  none, not, retain, same_letters, same_text, some, split, sum_by, trim, ℕ, ◌++◌, ◌+◌, ◌||◌, ◌∷◌,
}

abbrev pub HeaderMap : Type 0
HeaderMap = List (Text × Text)

abbrev pub contains_key : HeaderMap → Text → Bool
contains_key h name = any (λ x. same_text x.0 name) h

-- `HeaderMap::remove`.
abbrev pub remove : HeaderMap → Text → HeaderMap
remove h name = retain (λ x. not (same_text x.0 name)) h

-- `HeaderMap::insert`: the value takes the place of every other.
abbrev pub insert : HeaderMap → Text → Text → HeaderMap
insert h name value = remove h name ++ (name, value) ∷ []

unfoldable pub get_all : HeaderMap → Text → List Text
unfolding same_text
get_all [] name = []
get_all ((n, v) ∷ h) name = let rest = get_all h name in if same_text n name then v ∷ rest else rest

abbrev pub data_token : Text
data_token = codes "x-llmgw-token"

abbrev pub control_token : Text
control_token = codes "x-llmgw-control-token"

abbrev pub hop_by_hop : List Text
hop_by_hop =
    codes "connection"
    ∷ codes "keep-alive"
    ∷ codes "proxy-authenticate"
    ∷ codes "proxy-authorization"
    ∷ codes "te"
    ∷ codes "trailer"
    ∷ codes "transfer-encoding"
    ∷ codes "upgrade"
    ∷ []

abbrev pub line_size : Text × Text → ℕ
line_size x = length x.0 + length x.1 + 4

unfoldable pub stored_size : HeaderMap → ℕ
stored_size h = sum_by line_size h + 2

-- `config::Auth`, with `None` as `no_auth`: the header's name and the variable that holds its secret.
pub data Auth : Type 0 where
  forward no_auth : Auth
  env : Text → Text → Auth

unfoldable pub is_reserved_auth_target : Text → Bool
unfolding same_letters
is_reserved_auth_target name =
    same_letters name (codes "host")
    || (same_letters name (codes "content-length")
        || (same_letters name data_token
            || (same_letters name control_token || any (same_letters name) hop_by_hop)))

-- The names that one value of `connection` gives.
unfoldable pub nominated_by : Text → List Text
unfolding split trim
nominated_by value = map lowercase (retain (λ t. ltb 0 (length t)) (map trim (split b',' value)))

module _ (to_str : Text → Option Text) where
  abbrev pub named : Option Text → List Text
  unfolding nominated_by
  named none = []
  named (some value) = nominated_by value

  unfoldable pub nominated_in : List Text → List Text
  unfolding named
  nominated_in [] = []
  nominated_in (v ∷ vs) = named (to_str v) ++ nominated_in vs

  unfoldable pub nominated : HeaderMap → List Text
  unfolding nominated_in get_all
  nominated h = nominated_in (get_all h (codes "connection"))

  unfoldable pub requests_upgrade : HeaderMap → Bool
  unfolding nominated
  requests_upgrade h =
      contains_key h (codes "upgrade")
      || (contains_key h (codes "sec-websocket-key") || contains (nominated h) (codes "upgrade"))

  -- `for name in names { headers.remove(name); }`
  unfoldable pub remove_all : HeaderMap → List Text → HeaderMap
  remove_all h [] = h
  remove_all h (n ∷ ns) = remove_all (remove h n) ns

  unfoldable pub scrub : HeaderMap → HeaderMap
  unfolding nominated remove_all
  scrub h = remove_all (remove_all h (nominated h)) hop_by_hop

  module _ (header_name header_value : Text → Option Text) where
    abbrev pub insert_parsed : HeaderMap → Option Text → Option Text → HeaderMap
    insert_parsed h (some name) (some value) = insert h name value
    insert_parsed h _ _ = h

    abbrev pub insert_secret : HeaderMap → Text → Option Text → HeaderMap
    insert_secret h header none = h
    insert_secret h header (some secret) =
        insert_parsed h (header_name header) (header_value secret)

    abbrev pub without_credentials : HeaderMap → HeaderMap
    without_credentials h = remove (remove h (codes "authorization")) (codes "x-api-key")

    abbrev pub authorize : HeaderMap → Auth → Option Text → HeaderMap
    authorize h forward secret = h
    authorize h no_auth secret = without_credentials h
    authorize h (env header name) secret = insert_secret (without_credentials h) header secret

    unfoldable pub prepare_request : HeaderMap → Auth → Option Text → HeaderMap
    unfolding scrub
    prepare_request h auth secret =
        authorize (remove (remove (remove (scrub h) (codes "host")) data_token) control_token) auth
          secret

  unfoldable pub prepare_response : HeaderMap → HeaderMap
  unfolding scrub
  prepare_response h = remove (remove (scrub h) data_token) control_token
