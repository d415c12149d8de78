-- ===== src/Catalog/Tests.antt =====
-- Launches of the Redis simulation.
use seclab_suite_protocol_si.Base.{All, [], map, ok, refl, true, ◌↔◌, ◌∷◌, ◌≡◌}
use seclab_suite_protocol_si.Base.Text.{codes}
use seclab_suite_protocol_si.Catalog.{
  EndpointSpec, as_str, dns, endpoints_of, from_str, protocol_descriptor, redis, tcp,
}
use seclab_suite_protocol_si.Catalog.Names.{from_str_iff}
use seclab_suite_protocol_si.Catalog.Ports.{IsDescribed, protocol_descriptor-IsDescribed}
use seclab_suite_protocol_si.Catalog.Launch.{
  BoundEndpoint, EngineLaunchConfig, check_endpoints, check_required, validated_endpoints,
}
use seclab_suite_protocol_si.Catalog.Launch.Complete.{bind, validated_endpoints-bind}
use seclab_suite_protocol_si.Catalog.Launch.Accepted.{
  Fits, FitsOneOf, validated_endpoints-FitsOneOf, validated_endpoints-single,
}

from_str_iff_example : (from_str (codes "redis") ≡ ok redis) ↔ (codes "redis" ≡ as_str redis)
from_str_iff_example = from_str_iff (codes "redis") redis

protocol_descriptor-IsDescribed_example : IsDescribed (protocol_descriptor dns)
protocol_descriptor-IsDescribed_example = protocol_descriptor-IsDescribed dns

abbrev bound : BoundEndpoint
bound = record {
  endpoint_id = codes "main";
  transport = tcp;
  host_port = 16379;
  container_port = 6379;
}

abbrev launch : EngineLaunchConfig (Unit {0})
launch = record {
  schema_version = 1;
  protocol = redis;
  rule_id = codes "r";
  rule_name = codes "Redis";
  instance_id = codes "i";
  callback_url = codes "http://suite";
  callback_token = codes "t";
  endpoints = bound ∷ [];
  behavior = tt;
}

launch_accepted : validated_endpoints launch ≡ ok (bound ∷ [])
unfolding validated_endpoints check_endpoints check_required
launch_accepted = refl

abbrev redis_spec : EndpointSpec
redis_spec = record {
  id = codes "main";
  role = codes "service";
  transport = tcp;
  container_port = 6379;
  default_host_port = 6379;
  required = true;
}

redis_endpoints : endpoints_of launch.protocol ≡ redis_spec ∷ []
unfolding endpoints_of
redis_endpoints = refl

validated_endpoints-FitsOneOf_example :
    (bound ∷ [] ≡ launch.endpoints)
    × All (FitsOneOf (protocol_descriptor launch.protocol).endpoints) (bound ∷ [])
validated_endpoints-FitsOneOf_example = validated_endpoints-FitsOneOf launch launch_accepted

validated_endpoints-single_example :
    (endpoint : BoundEndpoint) × (bound ∷ [] ≡ endpoint ∷ []) × Fits redis_spec endpoint
validated_endpoints-single_example =
    validated_endpoints-single launch launch_accepted redis_spec redis_endpoints

redis_bound : launch.endpoints ≡ map (bind (λ _. 16379)) (endpoints_of launch.protocol)
unfolding endpoints_of
redis_bound = refl

validated_endpoints-bind_example : validated_endpoints launch ≡ ok launch.endpoints
validated_endpoints-bind_example = validated_endpoints-bind launch (λ _. 16379) redis_bound
