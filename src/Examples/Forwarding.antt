-- ===== src/Examples/Forwarding.antt =====
-- Requests on which the headers that are forwarded, and the guard of local requests, are run.
use deskquota.Common.{
  All, Bool, Option, Text, [], codes, false, lowercase, refl, same_letters, same_text, some, split,
  trim, ◌∷◌, ◌≡◌,
}
use deskquota.Headers.{
  Auth, HeaderMap, contains_key, data_token, env, get_all, is_reserved_auth_target, nominated,
  nominated_by, nominated_in, prepare_request,
}
use deskquota.Headers.Scrubbed.{Permitted}
use deskquota.Headers.Credentials.{Replaced, prepare_request-Replaced}
use deskquota.Headers.Connection.{Configured, prepare_request-Configured}
use deskquota.Headers.Local.{
  Authority, Means, Sole, ThisMachine, Typed, post, validate_local_request,
  validate_local_request-Means,
}

abbrev as_it_is : Text → Option Text
as_it_is t = some t

abbrev lowered : Text → Option Text
lowered t = some (lowercase t)

lowered_law : (t m : Text) → lowered t ≡ some m → m ≡ lowercase t
lowered_law t m h = cc

abbrev client_headers : HeaderMap
client_headers =
    (codes "connection", codes "te, x-trace")
    ∷ (codes "x-trace", codes "1")
    ∷ (codes "host", codes "localhost:80")
    ∷ (codes "authorization", codes "Bearer client")
    ∷ (data_token, codes "secret")
    ∷ []

abbrev configured : Auth
configured = env (codes "X-Api-Key") (codes "KEY")

configured-Permitted : Permitted configured
unfolding is_reserved_auth_target same_letters same_text
configured-Permitted = refl

prepare_request-Configured_example :
    All (Configured as_it_is lowered as_it_is configured (some (codes "k")) (codes "x-trace")) (
      get_all
        (prepare_request as_it_is lowered as_it_is client_headers configured (some (codes "k")))
        (codes "x-trace"))
unfolding same_text nominated nominated_in nominated_by get_all split trim
prepare_request-Configured_example =
    prepare_request-Configured as_it_is lowered as_it_is lowered_law client_headers configured
      (some (codes "k")) (codes "x-trace") configured-Permitted refl

prepare_request-Replaced_example :
    Replaced as_it_is lowered as_it_is configured (some (codes "k")) (
      get_all
        (prepare_request as_it_is lowered as_it_is client_headers configured (some (codes "k")))
        (codes "x-api-key"))
unfolding same_text
prepare_request-Replaced_example =
    prepare_request-Replaced as_it_is lowered as_it_is client_headers configured (some (codes "k"))
      (codes "x-api-key") refl

abbrev read_authority : Text → Option Authority
read_authority t = some (record { text = t; host = codes "localhost"; port_u16 = some 4700 })

abbrev never_loopback : Text → Bool
never_loopback t = false

abbrev local_headers : HeaderMap
local_headers =
    (codes "host", codes "localhost:4700") ∷ (codes "content-type", codes "application/json") ∷ []

validate_local_request-Means_example :
    Means
      (contains_key local_headers (codes "origin"))
      (Sole as_it_is read_authority never_loopback
        (ThisMachine as_it_is read_authority never_loopback 4700)
        (get_all local_headers (codes "host")))
      (Typed as_it_is read_authority never_loopback local_headers post)
      (validate_local_request as_it_is read_authority never_loopback local_headers post 4700)
validate_local_request-Means_example =
    validate_local_request-Means as_it_is read_authority never_loopback local_headers post 4700
