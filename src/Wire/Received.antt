-- ===== src/Wire/Received.antt =====
-- What of a container request and its parts reaches the worker.
use beta.Base.{◌≡◌, String, Bool, true, false, Option, none, some, str_eq, if◌then◌else◌}
use beta.Base.Int.{pos}
use beta.Base.Machine.{u32}
use beta.Types.{ContainerRequest}
use beta.Types.Related.{
  ConcurrencyLimit, WorkspaceStorage, Workspace, Object, Stub, StubWithRelated, BuildOptions,
  Checkpoint,
}
use beta.Wire.Parts.{zero_time, mapped, no_limit, storage_available}
use beta.Wire.{is_build_request, zero_build_options}

-- A text that is empty becomes a nil pointer.
abbrev pub non_empty_text : Option String → Option String
non_empty_text none = none
non_empty_text (some s) = if str_eq s "" then none else some s

-- A limit that is nil becomes one of zero; its times are lost.
abbrev pub received_limit : Option ConcurrencyLimit → ConcurrencyLimit
received_limit none = no_limit
received_limit (some c) = record c {
  id = u32 c.id;
  workspace_id = u32 c.workspace_id;
  created_at = zero_time;
  updated_at = zero_time;
}

-- A storage without an id above zero becomes one of empty texts.
abbrev pub received_storage : Bool → Option WorkspaceStorage → WorkspaceStorage
received_storage true (some s) = record s { id = mapped u32 s.id }
received_storage _ _ = record {
  id = some 0;
  external_id = some "";
  bucket_name = some "";
  access_key = some "";
  secret_key = some "";
  endpoint_url = some "";
  region = some "";
  created_at = some (pos 0);
  updated_at = some (pos 0);
}

abbrev pub received_workspace : Workspace → Workspace
received_workspace w = record w {
  id = u32 w.id;
  created_at = zero_time;
  updated_at = zero_time;
  signing_key = non_empty_text w.signing_key;
  concurrency_limit_id = none;
  concurrency_limit = some (received_limit w.concurrency_limit);
  storage_id = none;
  storage = some (received_storage (storage_available w) w.storage);
}

abbrev pub received_stub : Stub → Stub
received_stub s = record s {
  id = u32 s.id;
  config_version = u32 s.config_version;
  workspace_id = u32 s.workspace_id;
  object_id = 0;
  is_public = false;
  app_id = 0;
}

abbrev pub received_object : Object → Object
received_object o = record o {
  id = u32 o.id;
  workspace_id = u32 o.workspace_id;
  created_at = zero_time;
}

abbrev pub received_related : StubWithRelated → StubWithRelated
received_related s = record {
  stub = received_stub s.stub;
  workspace = received_workspace s.workspace;
  object = received_object s.object;
  app = none;
}

abbrev pub received_checkpoint : Checkpoint → Checkpoint
received_checkpoint c = record c {
  id = 0;
  workspace_id = 0;
  stub_id = 0;
  app_id = 0;
  deleted_at = none;
}

-- Without an image or a Dockerfile nothing of the options is sent.
abbrev pub received_build_options : Bool → BuildOptions → BuildOptions
received_build_options false b = zero_build_options
received_build_options true b = record b {
  source_image = non_empty_text b.source_image;
  dockerfile = non_empty_text b.dockerfile;
  build_ctx_object = non_empty_text b.build_ctx_object;
}

-- The request that the worker gets.
unfoldable pub received : ContainerRequest → ContainerRequest
received c = record c {
  workspace = received_workspace c.workspace;
  stub = received_related c.stub;
  build_options = received_build_options (is_build_request c) c.build_options;
  checkpoint = mapped received_checkpoint c.checkpoint;
  retry_count = 0;
  cost_per_ms = 0;
  config_path = "";
}

abbrev pub present {ℓ} : {A : Type ℓ} → Option A → Bool
present none = false
present (some a) = true

-- No pointer of a storage that is sent is nil.
pub record IsFilled (s : WorkspaceStorage) : Type 0 where
  pub id : present s.id ≡ true
  pub external_id : present s.external_id ≡ true
  pub bucket_name : present s.bucket_name ≡ true
  pub access_key : present s.access_key ≡ true
  pub secret_key : present s.secret_key ≡ true
  pub endpoint_url : present s.endpoint_url ≡ true
  pub region : present s.region ≡ true
  pub created_at : present s.created_at ≡ true
  pub updated_at : present s.updated_at ≡ true

abbrev pub IsSendable : Workspace → Type 0
IsSendable w = (s : WorkspaceStorage) → w.storage ≡ some s → storage_available w ≡ true → IsFilled s
