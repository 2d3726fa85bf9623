-- ===== src/Wire/Trip.antt =====
-- A request that is sent to a worker, and made from the message again.
use beta.Base.{
  ◌≡◌, ◌∙◌, refl, ap, String, Bool, true, false, Option, none, some, List, [], ◌∷◌, map, arith,
  if◌then◌else◌,
}
use beta.Base.Machine.{u32}
use beta.Types.{ContainerRequest}
use beta.Types.Related.{
  Mount, ConcurrencyLimit, WorkspaceStorage, Workspace, StubWithRelated, BuildOptions, Checkpoint,
}
use beta.Wire.Messages.{PbWorkspaceStorage, PbWorkspace, PbStubWithRelated, PbContainerRequest}
use beta.Wire.Parts.{
  get_string_or_default, get_pointer_or_nil, mapped, ◌>>=?◌, mount_to_proto, new_mount_from_proto,
  mount_point_config_to_proto, new_mount_point_config_from_proto, concurrency_limit_to_proto,
  new_concurrency_limit_from_proto, storage_available, storage_to_proto, new_storage_from_proto,
  limit_message, storage_message, workspace_to_proto, new_workspace_from_proto,
}
use beta.Wire.Stubs.{
  object_to_proto, new_object_from_proto, stub_to_proto, new_stub_from_proto, related_to_proto,
  new_related_from_proto, checkpoint_to_proto, new_checkpoint_from_proto,
}
use beta.Wire.{
  is_build_request, build_options_to_proto, build_options_of, request_message, request_of,
  request_to_proto, new_container_request_from_proto,
}
use beta.Wire.Received.{
  non_empty_text, received_limit, received_storage, received_workspace, received_related,
  received_checkpoint, received_build_options, received, present, IsFilled, IsSendable,
}

non_empty_text_lem :
    (o : Option String) → get_pointer_or_nil (get_string_or_default o) ≡ non_empty_text o
non_empty_text_lem none = refl
non_empty_text_lem (some s) = refl

present-some {ℓ} : {A : Type ℓ} (o : Option A) → present o ≡ true → (a : A) × (o ≡ some a)
present-some none h = cc
present-some (some a) h = (a, refl)

storage_to_proto-filled :
    (s : WorkspaceStorage)
    → IsFilled s
    → (p : PbWorkspaceStorage) × (storage_to_proto s ≡ some p)
      × (new_storage_from_proto p ≡ record s { id = mapped u32 s.id })
unfolding storage_to_proto new_storage_from_proto
storage_to_proto-filled s f =
    let (id, e1) = present-some s.id f.id in
    let (external_id, e2) = present-some s.external_id f.external_id in
    let (bucket_name, e3) = present-some s.bucket_name f.bucket_name in
    let (access_key, e4) = present-some s.access_key f.access_key in
    let (secret_key, e5) = present-some s.secret_key f.secret_key in
    let (endpoint_url, e6) = present-some s.endpoint_url f.endpoint_url in
    let (region, e7) = present-some s.region f.region in
    let (created_at, e8) = present-some s.created_at f.created_at in
    let (updated_at, e9) = present-some s.updated_at f.updated_at in
    (
      record {
        id = u32 id;
        external_id = external_id;
        bucket_name = bucket_name;
        access_key = access_key;
        secret_key = secret_key;
        endpoint_url = endpoint_url;
        region = region;
        created_at = some created_at;
        updated_at = some updated_at;
      },
      ground arith,
      ground arith,
    )

storage_message-lem :
    (b : Bool) (o : Option WorkspaceStorage)
    → ((s : WorkspaceStorage) → o ≡ some s → b ≡ true → IsFilled s)
    → (p : PbWorkspaceStorage) × (storage_message b o ≡ some p)
      × (new_storage_from_proto p ≡ received_storage b o)
unfolding new_storage_from_proto
storage_message-lem true (some s) h = storage_to_proto-filled s (h s refl refl)
storage_message-lem true none h = (_, refl, refl)
storage_message-lem false o h = (_, refl, refl)

limit_message-lem :
    (o : Option ConcurrencyLimit)
    → new_concurrency_limit_from_proto (limit_message o) ≡ received_limit o
unfolding new_concurrency_limit_from_proto concurrency_limit_to_proto
limit_message-lem none = refl
limit_message-lem (some c) = refl

workspace_arrives :
    (w : Workspace)
    → IsSendable w
    → (p : PbWorkspace) × (workspace_to_proto w ≡ some p)
      × (new_workspace_from_proto p ≡ received_workspace w)
unfolding workspace_to_proto new_workspace_from_proto
workspace_arrives w h =
    let (p, e, f) = storage_message-lem (storage_available w) w.storage h in
    (
      record {
        id = u32 w.id;
        external_id = w.external_id;
        name = w.name;
        signing_key = get_string_or_default w.signing_key;
        volume_cache_enabled = w.volume_cache_enabled;
        multi_gpu_enabled = w.multi_gpu_enabled;
        concurrency_limit = some (limit_message w.concurrency_limit);
        storage = some p;
      },
      cc,
      cc (f, limit_message-lem w.concurrency_limit, non_empty_text_lem w.signing_key),
    )

related_arrives :
    (s : StubWithRelated)
    → IsSendable s.workspace
    → (p : PbStubWithRelated) × (related_to_proto s ≡ some p)
      × (new_related_from_proto p ≡ some (received_related s))
unfolding related_to_proto new_related_from_proto stub_to_proto new_stub_from_proto object_to_proto
    new_object_from_proto
related_arrives s h =
    let (p, e, f) = workspace_arrives s.workspace h in
    (
      record {
        stub = some (stub_to_proto s.stub);
        workspace = some p;
        object = some (object_to_proto s.object);
      },
      cc,
      cc,
    )

mounts_lem : (ms : List Mount) → map new_mount_from_proto (map mount_to_proto ms) ≡ ms
unfolding new_mount_from_proto mount_to_proto new_mount_point_config_from_proto
    mount_point_config_to_proto
mounts_lem [] = refl
mounts_lem (m ∷ ms) = ground (arith, mounts_lem ms)

checkpoint_lem :
    (o : Option Checkpoint)
    → mapped new_checkpoint_from_proto (mapped checkpoint_to_proto o) ≡ mapped received_checkpoint o
unfolding new_checkpoint_from_proto checkpoint_to_proto
checkpoint_lem none = refl
checkpoint_lem (some c) = refl

build_options_lem :
    (b : Bool) (o : BuildOptions)
    → build_options_of (if b then some (build_options_to_proto o) else none)
      ≡ received_build_options b o
unfolding build_options_to_proto
build_options_lem true o = cc (
  non_empty_text_lem o.source_image,
  non_empty_text_lem o.dockerfile,
  non_empty_text_lem o.build_ctx_object,
)
build_options_lem false o = refl

request_of_lem :
    (c : ContainerRequest) (w : PbWorkspace) (s : PbStubWithRelated)
    → new_workspace_from_proto w ≡ received_workspace c.workspace
    → request_of (request_message c w s) (new_workspace_from_proto w) (received_related c.stub)
      ≡ received c
unfolding received
request_of_lem c w s f = cc (
  f,
  mounts_lem c.mounts,
  checkpoint_lem c.checkpoint,
  build_options_lem (is_build_request c) c.build_options,
)

-- A request whose workspaces' storages have no nil pointers is sent without a panic, and the worker
-- gets it as it was, but for this: no retry count, price and configuration path; no build options
-- unless they name an image or a Dockerfile; ids and the configuration's version cut to 32 bits; the
-- times of the workspaces, their limits and the object, and the ids of the limit and the storage, are
-- lost; a limit or a storage that is missing becomes an empty one; empty texts behind pointers become
-- nil; the stub's object, app and visibility, and the ids and the deletion time of the
-- checkpoint, are lost.
pub new_container_request_from_proto-request_to_proto :
    (c : ContainerRequest)
    → IsSendable c.workspace
    → IsSendable c.stub.workspace
    → (p : PbContainerRequest) × (request_to_proto c ≡ some p)
      × (new_container_request_from_proto p ≡ some (received c))
unfolding request_to_proto new_container_request_from_proto received
new_container_request_from_proto-request_to_proto c h k =
    let (w, e, f) = workspace_arrives c.workspace h in
    let (s, g, i) = related_arrives c.stub k in
    (
      request_message c w s,
      cc,
      ap
            (λ o. o >>=? λ stub.
              some (request_of (request_message c w s) (new_workspace_from_proto w) stub))
            i
          ∙ ap some (request_of_lem c w s f),
    )
