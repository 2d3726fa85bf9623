-- ===== src/Wire/Stubs.antt =====
-- The conversions of the stub, its object and its checkpoint.
use beta.Base.{false, Option, none, some}
use beta.Base.Machine.{u32}
use beta.Types.Related.{Object, Stub, StubWithRelated, Checkpoint}
use beta.Wire.Messages.{PbObject, PbStub, PbStubWithRelated, PbCheckpoint}
use beta.Wire.Parts.{zero_time, as_time, ◌>>=?◌, workspace_to_proto, new_workspace_from_proto}

unfoldable pub object_to_proto : Object → PbObject
object_to_proto o = record {
  id = u32 o.id;
  external_id = o.external_id;
  hash = o.hash;
  size = o.size;
  workspace_id = u32 o.workspace_id;
}

unfoldable pub new_object_from_proto : PbObject → Object
new_object_from_proto o = record {
  id = o.id;
  external_id = o.external_id;
  hash = o.hash;
  size = o.size;
  workspace_id = o.workspace_id;
  created_at = zero_time;
}

unfoldable pub stub_to_proto : Stub → PbStub
stub_to_proto s = record {
  id = u32 s.id;
  external_id = s.external_id;
  name = s.name;
  type = s.type;
  config = s.config;
  config_version = u32 s.config_version;
  workspace_id = u32 s.workspace_id;
  created_at = some s.created_at;
  updated_at = some s.updated_at;
}

unfoldable pub new_stub_from_proto : PbStub → Stub
new_stub_from_proto s = record {
  id = s.id;
  external_id = s.external_id;
  name = s.name;
  type = s.type;
  config = s.config;
  config_version = s.config_version;
  object_id = 0;
  workspace_id = s.workspace_id;
  created_at = as_time s.created_at;
  updated_at = as_time s.updated_at;
  is_public = false;
  app_id = 0;
}

unfoldable pub related_to_proto : StubWithRelated → Option PbStubWithRelated
related_to_proto s = workspace_to_proto s.workspace >>=? λ workspace. some (record {
  stub = some (stub_to_proto s.stub);
  workspace = some workspace;
  object = some (object_to_proto s.object);
})

unfoldable pub new_related_from_proto : PbStubWithRelated → Option StubWithRelated
new_related_from_proto s = s.stub >>=? λ stub. s.workspace >>=? λ workspace. s.object >>=? λ object.
    some (record {
      stub = new_stub_from_proto stub;
      workspace = new_workspace_from_proto workspace;
      object = new_object_from_proto object;
      app = none;
    })

unfoldable pub checkpoint_to_proto : Checkpoint → PbCheckpoint
checkpoint_to_proto c = record {
  checkpoint_id = c.checkpoint_id;
  external_id = c.external_id;
  source_container_id = c.source_container_id;
  container_ip = c.container_ip;
  status = c.status;
  remote_key = c.remote_key;
  stub_type = c.stub_type;
  exposed_ports = c.exposed_ports;
  created_at = some c.created_at;
  last_restored_at = some c.last_restored_at;
}

unfoldable pub new_checkpoint_from_proto : PbCheckpoint → Checkpoint
new_checkpoint_from_proto c = record {
  checkpoint_id = c.checkpoint_id;
  external_id = c.external_id;
  source_container_id = c.source_container_id;
  container_ip = c.container_ip;
  status = c.status;
  remote_key = c.remote_key;
  stub_type = c.stub_type;
  exposed_ports = c.exposed_ports;
  id = 0;
  workspace_id = 0;
  stub_id = 0;
  app_id = 0;
  created_at = as_time c.created_at;
  last_restored_at = as_time c.last_restored_at;
  deleted_at = none;
}
