-- ===== src/Detect/GeoAnomaly.antt =====
-- internal/detect/geoanomaly.go: requests from a country that is not allowed. The country database
-- is read by code of another package, and is the argument `resolver`: the answer for an address,
-- or none where it fails.
use sipreaper.Common.{
  if◌then◌else◌, ◌≡◌, ◌||◌, List, ◌++◌, Option, none, some, arith, Text, codes, is_empty, mem_text,
}
use sipreaper.Common.Dict.{and_then}
use sipreaper.Detect.Stream.{Seen}
use sipreaper.Models.{Threat}
use sipreaper.Net.{Ip}

abbrev pub Resolver : Type 0
Resolver = Ip → Option Text

pub record GeoAnomaly : Type 0 where
  pub allowed : List Text
  pub resolver : Option Resolver

unfoldable pub new_geo_anomaly : List Text → Option Resolver → GeoAnomaly
new_geo_anomaly countries resolver = record { allowed = countries; resolver = resolver }

abbrev pub foreign : Text → Seen → Threat
foreign country s = record {
  timestamp = s.stamp;
  source_ip = s.event.source_ip;
  detector = codes "geo_anomaly";
  severity = codes "medium";
  description = codes "request from non-allowed country: " ++ country;
  event_count = 1;
  window = 0;
}

-- The country's test, once it is known.
judge : GeoAnomaly → Seen → Option Text → Option Threat
judge d s none = none
judge d s (some country) = if mem_text country d.allowed then none else some (foreign country s)

-- `Detect`.
unfoldable pub detect : GeoAnomaly → Seen → GeoAnomaly × Option Threat
unfolding judge
detect d s =
    if s.event.is_response
    then (d, none)
    else if is_empty d.allowed
    then (d, none)
    else elim d.resolver [
      | none ↦ (d, none)
      | some resolve ↦ (d, judge d s (resolve s.event.source_ip))
    ]

-- A request is reported exactly if the list of allowed countries is not empty and the database
-- gives the request's source a country that is not on it. Without a database nothing is.
pub detect-resolver :
    (countries : List Text) (resolver : Option Resolver) (s : Seen)
    → (detect (new_geo_anomaly countries resolver) s).1 ≡ (
        if s.event.is_response || is_empty countries
        then none
        else and_then resolver (λ resolve.
          and_then
            (resolve s.event.source_ip)
            (λ country. if mem_text country countries then none else some (foreign country s))))
unfolding detect new_geo_anomaly
detect-resolver countries none s = ground arith
detect-resolver countries (some resolve) s = ground arith
