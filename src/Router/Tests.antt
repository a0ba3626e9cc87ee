-- ===== src/Router/Tests.antt =====
-- Runs of the router, and the theorems at concrete inputs.
use peretum.Cluster.Lru
use peretum.Cluster.Lru.{LruCache, new_lru_cache}
use peretum.Cluster.Lru.Valid.{new_lru_cache-IsValid, get_lem}
use peretum.Prelude.Int.{pos}
use peretum.Prelude.Bytes.{Bytes, codes, equal, has_prefix}
use peretum.Prelude.Text.{trim_left, trim_right, trim_space, trim_suffix, count, before}
use peretum.Prelude.{get_elem?, ℕ, ◌≡◌, ◌≢◌, ◌⊎◌, inr, refl, Bool, true, false, none, some, [], ◌∷◌}
use peretum.Router.Flights.Publication.{wake-publish}
use peretum.Router.Flights.Live.{Steps-waiting}
use peretum.Router.Flights.Single.{Loads, arrivals, IsSingle, Steps-IsSingle}
use peretum.Router.Flights.{
  waiting, finished, new_flight_table, claim, publish, wake, System, begins, Steps, start, step,
}
use peretum.Prelude.Dict.{lookup}
use peretum.Router.Hosts.{
  IsHostName, Spells, resolved, fallback, serve_http-upsert, serve_http-remove_host,
}
use peretum.Router.Locations.{
  other, match_prefix, Location, matches, priority, best_loop, serve_location, AtMost, IsBest,
  serve_location-IsBest,
}
use peretum.Router.{
  normalize_host, bracketed, HostRouter, new_host_router, serve_http, upsert, remove_host, or_else,
}

ipv6_keeps_brackets : normalize_host (codes " [::1]:8443") ≡ codes "[::1]"
unfolding normalize_host trim_space trim_left trim_right bracketed before has_prefix equal
ipv6_keeps_brackets = refl

port_and_dot : normalize_host (codes "Example.COM.:80") ≡ codes "example.com"
unfolding normalize_host trim_space trim_left trim_right bracketed before has_prefix equal count
    trim_suffix
port_and_dot = refl

abbrev name : Bytes
name = codes "a.b"

abbrev with_port : Bytes
with_port = codes "a.b:80"

name-IsHostName : IsHostName name
unfolding has_prefix count trim_suffix equal
name-IsHostName = record {
  plain = ((refl, refl), ((refl, refl), ((refl, refl), tt)));
  filled = refl;
  no_bracket = refl;
  no_port = refl;
  no_dot = refl;
}

with_port-Spells : Spells with_port name
unfolding count
with_port-Spells =
    inr (codes "80", record { digits = ((refl, refl), ((refl, refl), tt)); single = refl }, refl)

abbrev one_host : HostRouter ℕ
one_host = upsert name (some 3) new_host_router

abbrev fallback_host : HostRouter ℕ
fallback_host = record new_host_router { default_handler = some 9 }

serve_http-upsert_example :
    (serve_http (upsert name (some 5) one_host) with_port ≡ some 5)
    × (serve_http (upsert name (some 5) one_host) (codes "c") ≡ serve_http one_host (codes "c"))
unfolding normalize_host trim_space trim_left trim_right bracketed before has_prefix equal count
    trim_suffix
serve_http-upsert_example =
    serve_http-upsert name with_port (codes "c") 5 one_host name-IsHostName refl with_port-Spells
      refl

serve_http-remove_host_example :
    (serve_http (remove_host name one_host) with_port
      ≡ or_else (resolved one_host name) (fallback one_host))
    × (serve_http (remove_host name one_host) (codes "c") ≡ serve_http one_host (codes "c"))
unfolding normalize_host trim_space trim_left trim_right bracketed before has_prefix equal count
    trim_suffix
serve_http-remove_host_example =
    serve_http-remove_host name with_port (codes "c") one_host name-IsHostName refl with_port-Spells
      refl

-- A matcher that knows no pattern.
abbrev no_regex : Bytes → Bytes → Bool
no_regex pattern path = false

abbrev root : Location
root = record { match_type = match_prefix; path = codes "/" }

abbrev api : Location
api = record { match_type = match_prefix; path = codes "/api/" }

-- A location for "/" matches every path, and serves none.
root_serves_nothing :
    (matches no_regex root (codes "/x") ≡ true)
    × (serve_location no_regex (root ∷ []) none (codes "/x") ≡ none)
unfolding matches priority best_loop serve_location equal trim_suffix has_prefix
root_serves_nothing = (refl, refl)

serve_location-IsBest_example :
    ((h : Location) × (serve_location no_regex (root ∷ api ∷ []) (some root) (codes "/api/v1")
        ≡ some h)
      × IsBest no_regex (codes "/api/v1") (root ∷ api ∷ []) h)
    ⊎ ((serve_location no_regex (root ∷ api ∷ []) (some root) (codes "/api/v1") ≡ some root)
        × AtMost no_regex (codes "/api/v1") 0 (root ∷ api ∷ []))
serve_location-IsBest_example =
    serve_location-IsBest no_regex (root ∷ api ∷ []) (some root) (codes "/api/v1")

abbrev untyped : Location
untyped = record { match_type = other; path = codes "/api" }

-- A location without a type matches, and is passed over.
untyped_is_passed_over :
    (matches no_regex untyped (codes "/api/v1") ≡ true)
    × (serve_location no_regex (untyped ∷ []) none (codes "/api/v1") ≡ none)
unfolding matches priority best_loop serve_location has_prefix equal trim_suffix
untyped_is_passed_over = (refl, refl)

abbrev empty_lru : LruCache ℕ
empty_lru = new_lru_cache (pos 2)

abbrev both_arrive : System ℕ
both_arrive = record { table = new_flight_table empty_lru; phases = arrivals (name ∷ name ∷ []) }

abbrev first_began : System ℕ
first_began = record {
  table = (claim name both_arrive.table).0;
  phases = (claim name both_arrive.table).1 ∷ arrivals (name ∷ []);
}

abbrev both_began : System ℕ
both_began = record {
  table = (claim name first_began.table).0;
  phases = (claim name both_arrive.table).1 ∷ (claim name first_began.table).1 ∷ [];
}

both_begin : Steps both_arrive both_began
both_begin = step (step start (begins 0 name refl)) (begins 1 name refl)

Steps-IsSingle_example : IsSingle both_began
Steps-IsSingle_example = Steps-IsSingle empty_lru (name ∷ name ∷ []) both_began both_begin

wake-publish_example :
    ((wake name (publish name (some 4) first_began.table)).1 ≡ finished (some 4))
    × ((claim name (publish name (some 4) first_began.table)).1 ≡ finished (some 4))
    × (lookup name (publish name (some 4) first_began.table).calls ≡ none)
unfolding claim Lru.get new_flight_table new_lru_cache
wake-publish_example =
    wake-publish name 4 first_began.table (get_lem name empty_lru (new_lru_cache-IsValid (pos 2))).1

second_waits : get_elem? both_began.phases 1 ≡ some (waiting name 0)
unfolding claim Lru.get new_flight_table new_lru_cache equal
second_waits = refl

Steps-waiting_example :
    (lookup name both_began.table.calls ≢ some 0) ⊎ ((j : ℕ) × Loads both_began j name 0)
Steps-waiting_example =
    Steps-waiting empty_lru (name ∷ name ∷ []) both_began 1 0 name both_begin second_waits
