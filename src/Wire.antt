-- ===== src/Wire.antt =====
-- `ToProto` and `New…FromProto` of pkg/types: how a container request gets from the gateway to a
-- worker. `none` is a panic: the code reads through a nil pointer.
pub mod Messages
pub mod Parts
pub mod Stubs
pub mod Received
pub mod Trip
use beta.Base.{ℕ, String, Bool, true, false, ◌||◌, Option, none, some, [], map, if◌then◌else◌}
use beta.Types.{ContainerRequest}
use beta.Types.Related.{BuildOptions, Workspace, StubWithRelated}
use beta.Wire.Messages.{PbBuildOptions, PbContainerRequest, PbWorkspace, PbStubWithRelated}
use beta.Wire.Parts.{
  get_string_or_default, get_pointer_or_nil, mapped, ◌>>=?◌, mount_to_proto, new_mount_from_proto,
  workspace_to_proto, new_workspace_from_proto,
}
use beta.Wire.Stubs.{
  related_to_proto, new_related_from_proto, checkpoint_to_proto, new_checkpoint_from_proto,
}

abbrev pub is_set : Option String → Bool
is_set none = false
is_set (some s) = true

unfoldable pub is_build_request : ContainerRequest → Bool
is_build_request c = is_set c.build_options.source_image || is_set c.build_options.dockerfile

unfoldable pub build_options_to_proto : BuildOptions → PbBuildOptions
build_options_to_proto b = record {
  source_image = get_string_or_default b.source_image;
  dockerfile = get_string_or_default b.dockerfile;
  build_ctx_object = get_string_or_default b.build_ctx_object;
  source_image_creds = b.source_image_creds;
  build_secrets = b.build_secrets;
}

abbrev pub zero_build_options : BuildOptions
zero_build_options = record {
  source_image = none;
  dockerfile = none;
  build_ctx_object = none;
  source_image_creds = "";
  build_secrets = [];
}

abbrev pub build_options_of : Option PbBuildOptions → BuildOptions
build_options_of none = zero_build_options
build_options_of (some b) = record {
  source_image = get_pointer_or_nil b.source_image;
  dockerfile = get_pointer_or_nil b.dockerfile;
  build_ctx_object = get_pointer_or_nil b.build_ctx_object;
  source_image_creds = b.source_image_creds;
  build_secrets = b.build_secrets;
}

-- `GetTimestamp().AsTime()`
abbrev pub timestamp_of : Option ℕ → ℕ
timestamp_of none = 0
timestamp_of (some t) = t

-- `CostPerMs` and `ConfigPath` are not set.
abbrev pub request_message : ContainerRequest → PbWorkspace → PbStubWithRelated → PbContainerRequest
request_message c workspace stub = record {
  container_id = c.container_id;
  entry_point = c.entry_point;
  env = c.env;
  cpu = c.cpu;
  memory = c.memory;
  gpu = c.gpu;
  gpu_request = c.gpu_request;
  gpu_count = c.gpu_count;
  image_id = c.image_id;
  stub_id = c.stub_id;
  app_id = c.app_id;
  workspace_id = c.workspace_id;
  pool_selector = c.pool_selector;
  preemptable = c.preemptable;
  image_credentials = c.image_credentials;
  ports = c.ports;
  checkpoint_enabled = c.checkpoint_enabled;
  build_registry_credentials = c.build_registry_credentials;
  block_network = c.block_network;
  allow_list = c.allow_list;
  docker_enabled = c.docker_enabled;
  mounts = map mount_to_proto c.mounts;
  workspace = some workspace;
  stub = some stub;
  retry_count = c.retry_count;
  timestamp = some c.timestamp;
  build_options =
      if is_build_request c then some (build_options_to_proto c.build_options) else none;
  checkpoint = mapped checkpoint_to_proto c.checkpoint;
  cost_per_ms = 0;
  config_path = "";
}

unfoldable pub request_to_proto : ContainerRequest → Option PbContainerRequest
request_to_proto c = workspace_to_proto c.workspace >>=? λ workspace.
    related_to_proto c.stub >>=? λ stub. some (request_message c workspace stub)

-- `RetryCount` is not read.
abbrev pub request_of : PbContainerRequest → Workspace → StubWithRelated → ContainerRequest
request_of p workspace stub = record {
  container_id = p.container_id;
  entry_point = p.entry_point;
  env = p.env;
  cpu = p.cpu;
  memory = p.memory;
  gpu = p.gpu;
  gpu_request = p.gpu_request;
  gpu_count = p.gpu_count;
  image_id = p.image_id;
  stub_id = p.stub_id;
  app_id = p.app_id;
  workspace_id = p.workspace_id;
  pool_selector = p.pool_selector;
  preemptable = p.preemptable;
  image_credentials = p.image_credentials;
  ports = p.ports;
  checkpoint_enabled = p.checkpoint_enabled;
  build_registry_credentials = p.build_registry_credentials;
  block_network = p.block_network;
  allow_list = p.allow_list;
  docker_enabled = p.docker_enabled;
  mounts = map new_mount_from_proto p.mounts;
  workspace = workspace;
  stub = stub;
  retry_count = 0;
  timestamp = timestamp_of p.timestamp;
  build_options = build_options_of p.build_options;
  checkpoint = mapped new_checkpoint_from_proto p.checkpoint;
  cost_per_ms = 0;
  config_path = "";
}

unfoldable pub new_container_request_from_proto : PbContainerRequest → Option ContainerRequest
new_container_request_from_proto p = p.workspace >>=? λ workspace. p.stub >>=? λ message.
    new_related_from_proto message >>=? λ stub.
    some (request_of p (new_workspace_from_proto workspace) stub)
