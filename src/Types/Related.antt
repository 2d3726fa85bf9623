-- ===== src/Types/Related.antt =====
-- The structs of pkg/types/backend.go, pkg/types/worker.go and pkg/types/config.go that a container
-- request holds. A pointer is an option; an instant is its distance from 1970 in nanoseconds.
use beta.Base.{ℕ, String, Bool, Option, List}
use beta.Base.Int.{ℤ}

pub record MountPointConfig : Type 0 where
  pub bucket_name : String
  pub access_key : String
  pub secret_key : String
  pub endpoint_url : String
  pub region : String
  pub read_only : Bool
  pub force_path_style : Bool

pub record Mount : Type 0 where
  pub local_path : String
  pub mount_path : String
  pub link_path : String
  pub read_only : Bool
  pub mount_type : String
  pub mount_point_config : Option MountPointConfig

pub record ConcurrencyLimit : Type 0 where
  pub id : ℕ  -- uint
  pub external_id : String
  pub workspace_id : ℕ  -- uint
  pub gpu_limit : ℕ  -- uint32
  pub cpu_millicore_limit : ℕ  -- uint32
  pub created_at : ℤ
  pub updated_at : ℤ

pub record WorkspaceStorage : Type 0 where
  pub id : Option ℕ  -- *uint
  pub external_id : Option String
  pub bucket_name : Option String
  pub access_key : Option String
  pub secret_key : Option String
  pub endpoint_url : Option String
  pub region : Option String
  pub created_at : Option ℤ
  pub updated_at : Option ℤ

pub record Workspace : Type 0 where
  pub id : ℕ  -- uint
  pub external_id : String
  pub name : String
  pub created_at : ℤ
  pub updated_at : ℤ
  pub signing_key : Option String
  pub volume_cache_enabled : Bool
  pub multi_gpu_enabled : Bool
  pub concurrency_limit_id : Option ℕ
  pub concurrency_limit : Option ConcurrencyLimit
  pub storage_id : Option ℕ
  pub storage : Option WorkspaceStorage

pub record Object : Type 0 where
  pub id : ℕ  -- uint
  pub external_id : String
  pub hash : String
  pub size : ℤ  -- int64
  pub workspace_id : ℕ  -- uint
  pub created_at : ℤ

pub record App : Type 0 where
  pub id : ℕ  -- uint
  pub external_id : String
  pub name : String
  pub description : String
  pub workspace_id : ℕ  -- uint
  pub created_at : ℤ
  pub updated_at : ℤ
  pub deleted_at : Option ℤ

pub record Stub : Type 0 where
  pub id : ℕ  -- uint
  pub external_id : String
  pub name : String
  pub type : String
  pub config : String
  pub config_version : ℕ  -- uint
  pub object_id : ℕ  -- uint
  pub workspace_id : ℕ  -- uint
  pub created_at : ℤ
  pub updated_at : ℤ
  pub is_public : Bool
  pub app_id : ℕ  -- uint

pub record StubWithRelated : Type 0 where
  pub stub : Stub
  pub workspace : Workspace
  pub object : Object
  pub app : Option App

pub record BuildOptions : Type 0 where
  pub source_image : Option String
  pub dockerfile : Option String
  pub build_ctx_object : Option String
  pub source_image_creds : String
  pub build_secrets : List String

pub record Checkpoint : Type 0 where
  pub id : ℕ  -- uint
  pub checkpoint_id : String
  pub external_id : String
  pub source_container_id : String
  pub container_ip : String
  pub status : String
  pub remote_key : String
  pub workspace_id : ℕ  -- uint
  pub stub_id : ℕ  -- uint
  pub stub_type : String
  pub app_id : ℕ  -- uint
  pub exposed_ports : List ℕ  -- uint32
  pub created_at : ℤ
  pub last_restored_at : ℤ
  pub deleted_at : Option ℤ
