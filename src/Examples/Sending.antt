-- ===== src/Examples/Sending.antt =====
-- A request with a storage, sent to a worker.
use beta.Base.{◌≡◌, refl, subst, some}
use beta.Base.Int.{pos}
use beta.Types.{ContainerRequest}
use beta.Types.Related.{WorkspaceStorage, Workspace}
use beta.Wire.Messages.{PbContainerRequest}
use beta.Wire.{request_to_proto, new_container_request_from_proto}
use beta.Wire.Received.{received, IsFilled, IsSendable}
use beta.Wire.Trip.{new_container_request_from_proto-request_to_proto}
use beta.Examples.Data.{workspace, cpu_request}

abbrev bucket : WorkspaceStorage
bucket = record {
  id = some 3;
  external_id = some "b3";
  bucket_name = some "bucket";
  access_key = some "a";
  secret_key = some "k";
  endpoint_url = some "http://store";
  region = some "r";
  created_at = some (pos 5);
  updated_at = some (pos 6);
}

bucket-IsFilled : IsFilled bucket
bucket-IsFilled = record {
  id = refl;
  external_id = refl;
  bucket_name = refl;
  access_key = refl;
  secret_key = refl;
  endpoint_url = refl;
  region = refl;
  created_at = refl;
  updated_at = refl;
}

abbrev stored_workspace : Workspace
stored_workspace = record workspace { storage = some bucket }

abbrev stored_request : ContainerRequest
stored_request = record cpu_request { workspace = stored_workspace; retry_count = 2 }

stored_workspace-IsSendable : IsSendable stored_workspace
stored_workspace-IsSendable s e a = subst IsFilled (cc) bucket-IsFilled

workspace-IsSendable : IsSendable workspace
workspace-IsSendable s e a = cc

new_container_request_from_proto-request_to_proto_example :
    (p : PbContainerRequest) × (request_to_proto stored_request ≡ some p)
    × (new_container_request_from_proto p ≡ some (received stored_request))
new_container_request_from_proto-request_to_proto_example =
    new_container_request_from_proto-request_to_proto stored_request stored_workspace-IsSendable
      workspace-IsSendable

retry_count_lost : (received stored_request).retry_count ≡ 0
unfolding received
retry_count_lost = refl
