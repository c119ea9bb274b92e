-- ===== src/Broker/Decode.antt =====
-- decodeOneJSON, LoadPolicy and DecodeRouteRequest of internal/broker/policy.go. What encoding/json reads of a
-- text is given; the strictness about what follows is the program's.
use sroiaaa.Base.{Option, none, some}
use sroiaaa.Broker.Types.{Policy, RouteRequest}

-- What the second call of Decode finds: the end, a value, or something it cannot read.
pub data Rest : Type 0 where
  eof another broken : Rest

-- The first call gives a value, or fails; unknown fields make it fail.
pub record JsonReads (A : Type 0) : Type 0 where
  pub first : Option A
  pub rest : Rest

abbrev pub only_value : {A : Type 0} → Rest → A → Option A
only_value eof a = some a
only_value another a = none
only_value broken a = none

unfoldable pub decode_one_json : {A : Type 0} → JsonReads A → Option A
decode_one_json reads = elim reads.first [ some a ↦ only_value reads.rest a | none ↦ none ]

unfoldable pub load_policy : JsonReads Policy → Option Policy
unfolding decode_one_json
load_policy reads = decode_one_json reads

unfoldable pub decode_route_request : JsonReads RouteRequest → Option RouteRequest
unfolding decode_one_json
decode_route_request reads = decode_one_json reads
