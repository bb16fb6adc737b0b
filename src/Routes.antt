-- ===== src/Routes.antt =====
-- pkg/api/routes.go, cmd/api-gateway/main.go, pkg/mq/server.go and cmd/storage-service/main.go: the route
-- tables that the servers give gin, with the prefixes of the groups written out. How gin finds the route
-- of a request is not modelled.
use mathlib.Core.List.{append_assoc, append-nil}
use elastic_gpu_telemetry_pi.Common.{
  ℕ, ◌==◌, ◌≡◌, refl, sym, ap, ◌∙◌, Bool, true, false, some, List, [], ◌∷◌, ◌++◌, Text, codes,
  get_elem?, if◌then◌else◌,
}
use elastic_gpu_telemetry_pi.Http.{Method, get, post}
use elastic_gpu_telemetry_pi.HttpQueue
use elastic_gpu_telemetry_pi.StorageClient.{
  HttpRepository, Encoding, get_of, post_of, gpus_url, gpu_url,
}

-- The path may have parameters, `:name`.
record Route (H : Type 0) : Type 0 where
  method : Method
  path : Text
  handler : H

abbrev route : {H : Type 0} → Method → Text → H → Route H
route method path handler = record { method = method; path = path; handler = handler }

data QueueHandler : Type 0 where
  health_check publish_message subscribe_messages ack_message get_stats : QueueHandler

-- `setupRoutes` of the queue service.
abbrev setup_routes : List (Route QueueHandler)
setup_routes =
    route get (codes "/api/v1/health") health_check
    ∷ route post (codes "/api/v1/messages") publish_message
    ∷ route get (codes "/api/v1/messages") subscribe_messages
    ∷ route post (codes "/api/v1/messages/:id/ack") ack_message
    ∷ route get (codes "/api/v1/stats") get_stats
    ∷ []

data GatewayHandler : Type 0 where
  gateway_liveness gateway_readiness list_gpus get_telemetry_by_gpu swagger : GatewayHandler

-- `SetupRoutes` of the API.
abbrev api_routes : List (Route GatewayHandler)
api_routes =
    route get (codes "/api/v1/gpus") list_gpus
    ∷ route get (codes "/api/v1/gpus/:id/telemetry") get_telemetry_by_gpu
    ∷ []

-- The routes of the API gateway.
abbrev gateway_routes : List (Route GatewayHandler)
gateway_routes =
    (route get (codes "/health") gateway_liveness
      ∷ route get (codes "/ready") gateway_readiness
      ∷ [])
    ++ api_routes
    ++ route get (codes "/swagger/*any") swagger ∷ []

data StorageHandler : Type 0 where
  storage_liveness storage_readiness lists_gpus gets_gpu saves_gpu saves_telemetry gets_telemetry :
      StorageHandler

-- The routes of the storage service.
abbrev storage_routes : List (Route StorageHandler)
storage_routes =
    route get (codes "/health") storage_liveness
    ∷ route get (codes "/ready") storage_readiness
    ∷ route get (codes "/api/v1/storage/gpus") lists_gpus
    ∷ route get (codes "/api/v1/storage/gpus/:uuid") gets_gpu
    ∷ route post (codes "/api/v1/storage/gpus") saves_gpu
    ∷ route post (codes "/api/v1/storage/telemetry") saves_telemetry
    ∷ route get (codes "/api/v1/storage/gpus/:uuid/telemetry") gets_telemetry
    ∷ []

-- The path with values for its parameters; `skipping` leaves out a parameter's name.
fill_from : Bool → Text → List Text → Text
fill_from skipping [] values = []
fill_from true (c ∷ path) values =
    let rest = fill_from true path values in
    let next = fill_from false path values in if c == 47 then c ∷ next else rest
fill_from false (c ∷ path) [] = c ∷ fill_from false path []
fill_from false (c ∷ path) (v ∷ values) =
    let filled = v ++ fill_from true path values in
    let next = c ∷ fill_from false path (v ∷ values) in if c == 58 then filled else next

-- The request has the method and the path of the handler's route, with values for its parameters.
record Calls {H : Type 0} (table : List (Route H)) (handler : H) (base : Text) (method : Method)
    (url : Text) : Type 0 where
  place : ℕ
  path : Text
  values : List Text
  routed : get_elem? table place ≡ some (record { method = method; path = path; handler = handler })
  reached : url ≡ base ++ fill_from false path values

-- The clients of the queue service call its routes.
queue_client-Calls :
    (path_escape : Text → Text) (q : HttpQueue.HttpQueue) (json id : Text)
    → Calls setup_routes publish_message q.base_url post (HttpQueue.publish_request q json).url
      × Calls setup_routes ack_message q.base_url post
          (HttpQueue.ack_request path_escape q id json).url
unfolding fill_from
queue_client-Calls path_escape q json id = (
  record { place = 1; path = codes "/api/v1/messages"; values = []; routed = refl; reached = refl },
  record {
    place = 3;
    path = codes "/api/v1/messages/:id/ack";
    values = path_escape id ∷ [];
    routed = refl;
    reached =
        append_assoc (q.base_url ++ codes "/api/v1/messages/") (path_escape id) (codes "/ack")
        ∙ append_assoc q.base_url (codes "/api/v1/messages/") (path_escape id ++ codes "/ack");
  },
)

-- The client of the storage service calls its routes; the query of the last URL is added later.
storage_client-Calls :
    (encoding : Encoding) (r : HttpRepository) (uuid json : Text)
    → Calls storage_routes lists_gpus r.base_url get (get_of (gpus_url r)).url
      × Calls storage_routes gets_gpu r.base_url get (get_of (gpu_url encoding r uuid)).url
      × Calls storage_routes saves_gpu r.base_url post (post_of (gpus_url r) json).url
      × Calls storage_routes saves_telemetry r.base_url post
          (post_of (r.base_url ++ codes "/api/v1/storage/telemetry") json).url
      × Calls storage_routes gets_telemetry r.base_url get
          (gpu_url encoding r uuid ++ codes "/telemetry")
unfolding fill_from
storage_client-Calls encoding r uuid json =
    let escaped = encoding.path_escape uuid in
    let gpus = codes "/api/v1/storage/gpus" in
    let gpu : gpu_url encoding r uuid ≡ r.base_url ++ (codes "/api/v1/storage/gpus/" ++ escaped) =
      append_assoc (r.base_url ++ gpus) (codes "/") escaped
      ∙ append_assoc r.base_url gpus (codes "/" ++ escaped) in
    (
      record { place = 2; path = gpus; values = []; routed = refl; reached = refl },
      record {
        place = 3;
        path = codes "/api/v1/storage/gpus/:uuid";
        values = escaped ∷ [];
        routed = refl;
        reached =
            gpu
            ∙ ap (λ l. r.base_url ++ (codes "/api/v1/storage/gpus/" ++ l))
                (sym (append-nil escaped));
      },
      record { place = 4; path = gpus; values = []; routed = refl; reached = refl },
      record {
        place = 5;
        path = codes "/api/v1/storage/telemetry";
        values = [];
        routed = refl;
        reached = refl;
      },
      record {
        place = 6;
        path = codes "/api/v1/storage/gpus/:uuid/telemetry";
        values = escaped ∷ [];
        routed = refl;
        reached =
            ap (λ l. l ++ codes "/telemetry") gpu
            ∙ append_assoc r.base_url (codes "/api/v1/storage/gpus/" ++ escaped)
                (codes "/telemetry")
            ∙ ap (λ l. r.base_url ++ l)
                (append_assoc (codes "/api/v1/storage/gpus/") escaped (codes "/telemetry"));
      },
    )
