-- ===== src/Wire/Parts.antt =====
-- The conversions of the structs that a container request holds.
use beta.Base.{ℕ, String, Bool, true, false, Option, none, some, ltb, str_eq, if◌then◌else◌}
use beta.Base.Int.{ℤ, pos, negsuc}
use beta.Base.Machine.{u32}
use beta.Types.Related.{MountPointConfig, Mount, ConcurrencyLimit, WorkspaceStorage, Workspace}
use beta.Wire.Messages.{
  PbMountPointConfig, PbMount, PbConcurrencyLimit, PbWorkspaceStorage, PbWorkspace,
}

-- time.Time{}, the first of January of the year 1.
abbrev pub zero_time : ℤ
zero_time = negsuc 62135596799999999999

-- `AsTime` of a nil timestamp is the first of January 1970.
abbrev pub as_time : Option ℤ → ℤ
as_time none = pos 0
as_time (some t) = t

abbrev pub get_string_or_default : Option String → String
get_string_or_default none = ""
get_string_or_default (some s) = s

abbrev pub get_pointer_or_nil : String → Option String
get_pointer_or_nil s = if str_eq s "" then none else some s

infixl 5 ◌>>=?◌
abbrev pub ◌>>=?◌ : {A B : Type 0} → Option A → (A → Option B) → Option B
none >>=? f = none
some a >>=? f = f a

abbrev pub mapped : {A B : Type 0} → (A → B) → Option A → Option B
mapped f none = none
mapped f (some a) = some (f a)

unfoldable pub mount_point_config_to_proto : MountPointConfig → PbMountPointConfig
mount_point_config_to_proto m = record {
  bucket_name = m.bucket_name;
  access_key = m.access_key;
  secret_key = m.secret_key;
  endpoint_url = m.endpoint_url;
  region = m.region;
  read_only = m.read_only;
  force_path_style = m.force_path_style;
}

unfoldable pub new_mount_point_config_from_proto : PbMountPointConfig → MountPointConfig
new_mount_point_config_from_proto m = record {
  bucket_name = m.bucket_name;
  access_key = m.access_key;
  secret_key = m.secret_key;
  endpoint_url = m.endpoint_url;
  region = m.region;
  read_only = m.read_only;
  force_path_style = m.force_path_style;
}

unfoldable pub mount_to_proto : Mount → PbMount
mount_to_proto m = record {
  local_path = m.local_path;
  mount_path = m.mount_path;
  link_path = m.link_path;
  read_only = m.read_only;
  mount_type = m.mount_type;
  mount_point_config = mapped mount_point_config_to_proto m.mount_point_config;
}

unfoldable pub new_mount_from_proto : PbMount → Mount
new_mount_from_proto m = record {
  local_path = m.local_path;
  mount_path = m.mount_path;
  link_path = m.link_path;
  read_only = m.read_only;
  mount_type = m.mount_type;
  mount_point_config = mapped new_mount_point_config_from_proto m.mount_point_config;
}

unfoldable pub concurrency_limit_to_proto : ConcurrencyLimit → PbConcurrencyLimit
concurrency_limit_to_proto c = record {
  id = u32 c.id;
  external_id = c.external_id;
  workspace_id = u32 c.workspace_id;
  gpu_limit = c.gpu_limit;
  cpu_millicore_limit = c.cpu_millicore_limit;
}

unfoldable pub new_concurrency_limit_from_proto : PbConcurrencyLimit → ConcurrencyLimit
new_concurrency_limit_from_proto c = record {
  id = c.id;
  external_id = c.external_id;
  workspace_id = c.workspace_id;
  gpu_limit = c.gpu_limit;
  cpu_millicore_limit = c.cpu_millicore_limit;
  created_at = zero_time;
  updated_at = zero_time;
}

-- &pb.ConcurrencyLimit{} and &pb.WorkspaceStorage{}
abbrev pub no_limit_message : PbConcurrencyLimit
no_limit_message = record {
  id = 0;
  external_id = "";
  workspace_id = 0;
  gpu_limit = 0;
  cpu_millicore_limit = 0;
}

abbrev pub no_storage_message : PbWorkspaceStorage
no_storage_message = record {
  id = 0;
  external_id = "";
  bucket_name = "";
  access_key = "";
  secret_key = "";
  endpoint_url = "";
  region = "";
  created_at = none;
  updated_at = none;
}

abbrev pub positive : Option ℕ → Bool
positive none = false
positive (some id) = ltb 0 id

abbrev pub has_id : Option WorkspaceStorage → Bool
has_id none = false
has_id (some s) = positive s.id

unfoldable pub storage_available : Workspace → Bool
storage_available w = has_id w.storage

-- Each of the pointers is read through.
unfoldable pub storage_to_proto : WorkspaceStorage → Option PbWorkspaceStorage
storage_to_proto w = w.id >>=? λ id. w.external_id >>=? λ external_id.
    w.bucket_name >>=? λ bucket_name. w.access_key >>=? λ access_key.
    w.secret_key >>=? λ secret_key. w.region >>=? λ region. w.endpoint_url >>=? λ endpoint_url.
    w.created_at >>=? λ created_at. w.updated_at >>=? λ updated_at. some (record {
      id = u32 id;
      external_id = external_id;
      bucket_name = bucket_name;
      access_key = access_key;
      secret_key = secret_key;
      endpoint_url = endpoint_url;
      region = region;
      created_at = some created_at;
      updated_at = some updated_at;
    })

unfoldable pub new_storage_from_proto : PbWorkspaceStorage → WorkspaceStorage
new_storage_from_proto w = record {
  id = some w.id;
  external_id = some w.external_id;
  bucket_name = some w.bucket_name;
  access_key = some w.access_key;
  secret_key = some w.secret_key;
  endpoint_url = some w.endpoint_url;
  region = some w.region;
  created_at = some (as_time w.created_at);
  updated_at = some (as_time w.updated_at);
}

abbrev pub limit_message : Option ConcurrencyLimit → PbConcurrencyLimit
limit_message none = no_limit_message
limit_message (some c) = concurrency_limit_to_proto c

abbrev pub storage_message : Bool → Option WorkspaceStorage → Option PbWorkspaceStorage
storage_message true (some s) = storage_to_proto s
storage_message _ _ = some no_storage_message

unfoldable pub workspace_to_proto : Workspace → Option PbWorkspace
workspace_to_proto w = storage_message (storage_available w) w.storage >>=? λ storage.
    some (record {
      id = u32 w.id;
      external_id = w.external_id;
      name = w.name;
      signing_key = get_string_or_default w.signing_key;
      volume_cache_enabled = w.volume_cache_enabled;
      multi_gpu_enabled = w.multi_gpu_enabled;
      concurrency_limit = some (limit_message w.concurrency_limit);
      storage = some storage;
    })

-- &ConcurrencyLimit{} and &WorkspaceStorage{}
abbrev pub no_limit : ConcurrencyLimit
no_limit = record {
  id = 0;
  external_id = "";
  workspace_id = 0;
  gpu_limit = 0;
  cpu_millicore_limit = 0;
  created_at = zero_time;
  updated_at = zero_time;
}

abbrev pub no_storage : WorkspaceStorage
no_storage = record {
  id = none;
  external_id = none;
  bucket_name = none;
  access_key = none;
  secret_key = none;
  endpoint_url = none;
  region = none;
  created_at = none;
  updated_at = none;
}

abbrev pub limit_from : Option PbConcurrencyLimit → ConcurrencyLimit
limit_from none = no_limit
limit_from (some c) = new_concurrency_limit_from_proto c

abbrev pub storage_of : Option PbWorkspaceStorage → WorkspaceStorage
storage_of none = no_storage
storage_of (some s) = new_storage_from_proto s

unfoldable pub new_workspace_from_proto : PbWorkspace → Workspace
new_workspace_from_proto w = record {
  id = w.id;
  external_id = w.external_id;
  name = w.name;
  created_at = zero_time;
  updated_at = zero_time;
  signing_key = get_pointer_or_nil w.signing_key;
  volume_cache_enabled = w.volume_cache_enabled;
  multi_gpu_enabled = w.multi_gpu_enabled;
  concurrency_limit_id = none;
  concurrency_limit = some (limit_from w.concurrency_limit);
  storage_id = none;
  storage = some (storage_of w.storage);
}
