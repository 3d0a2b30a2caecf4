-- ===== src/Tests/Dns.antt =====
-- A query for `a`, and a response with its address and an alias.
use route_guard.Prelude.{◌*◌, ◌≡◌, ◌≤◌, refl, true, some, [], ◌∷◌, ◌++◌, length, All}
use route_guard.Prelude.Text.{Text, bytes}
use route_guard.Prelude.Utf8.{from_utf8_lossy}
use route_guard.Prelude.Result.{ok, is_ok}
use route_guard.Core.Net.{v4}
use route_guard.Platform.Dns.{DnsParsedEvent, parse_dns_response}
use route_guard.Platform.Dns.Bounds.{InBounds, is_ok-parse_dns_response, parse_dns_response-bounds}

abbrev question : Text
question = 1 ∷ 97 ∷ 0 ∷ 0 ∷ 1 ∷ 0 ∷ 1 ∷ []

abbrev query : Text
query = 0 ∷ 7 ∷ 1 ∷ 0 ∷ 0 ∷ 1 ∷ 0 ∷ 0 ∷ 0 ∷ 0 ∷ 0 ∷ 0 ∷ question

abbrev response : Text
response =
    0 ∷ 7 ∷ 129 ∷ 128 ∷ 0 ∷ 1 ∷ 0 ∷ 2 ∷ 0 ∷ 0 ∷ 0 ∷ 0 ∷ question
    ++ (192 ∷ 12 ∷ 0 ∷ 1 ∷ 0 ∷ 1 ∷ 0 ∷ 0 ∷ 0 ∷ 9 ∷ 0 ∷ 4 ∷ 10 ∷ 0 ∷ 0 ∷ 7 ∷ [])
    ++ (192 ∷ 12 ∷ 0 ∷ 5 ∷ 0 ∷ 1 ∷ 0 ∷ 0 ∷ 0 ∷ 9 ∷ 0 ∷ 3 ∷ 1 ∷ 98 ∷ 0 ∷ [])

abbrev answer : DnsParsedEvent
answer = record { domain = bytes "a"; records = (v4 167772167, 30) ∷ [] }

parsed : parse_dns_response query response 30 3600 ≡ ok (some answer)
unfolding parse_dns_response
parsed = refl

-- A non-ASCII label, a lone continuation byte in it.
lossy : from_utf8_lossy (195 ∷ 188 ∷ 188 ∷ 98 ∷ []) ≡ 195 ∷ 188 ∷ 239 ∷ 191 ∷ 189 ∷ 98 ∷ []
unfolding from_utf8_lossy
lossy = refl

is_ok-parse_dns_response_example : is_ok (parse_dns_response query response 30 3600) ≡ true
is_ok-parse_dns_response_example = is_ok-parse_dns_response query response 30 3600

parse_dns_response-bounds_example :
    (1 ≤ length answer.records)
    × (14 * length answer.records ≤ length response)
    × All (InBounds 30 3600) answer.records
parse_dns_response-bounds_example = parse_dns_response-bounds query response 30 3600 answer parsed
