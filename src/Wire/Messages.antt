-- ===== src/Wire/Messages.antt =====
-- The messages of proto/types.pb.go that a container request becomes, as far as the conversions use
-- them. A submessage or a timestamp is an option, since it may be nil.
use beta.Base.{ℕ, String, Bool, Option, List}
use beta.Base.Int.{ℤ}

pub record PbMountPointConfig : Type 0 where
  pub bucket_name : String
  pub access_key : String
  pub secret_key : String
  pub endpoint_url : String
  pub region : String
  pub read_only : Bool
  pub force_path_style : Bool

pub record PbMount : Type 0 where
  pub local_path : String
  pub mount_path : String
  pub link_path : String
  pub read_only : Bool
  pub mount_type : String
  pub mount_point_config : Option PbMountPointConfig

pub record PbConcurrencyLimit : Type 0 where
  pub id : ℕ  -- uint
  pub external_id : String
  pub workspace_id : ℕ  -- uint
  pub gpu_limit : ℕ  -- uint32
  pub cpu_millicore_limit : ℕ  -- uint32

pub record PbWorkspaceStorage : Type 0 where
  pub id : ℕ  -- uint32
  pub external_id : String
  pub bucket_name : String
  pub access_key : String
  pub secret_key : String
  pub endpoint_url : String
  pub region : String
  pub created_at : Option ℤ
  pub updated_at : Option ℤ

pub record PbWorkspace : Type 0 where
  pub id : ℕ  -- uint
  pub external_id : String
  pub name : String
  pub signing_key : String
  pub volume_cache_enabled : Bool
  pub multi_gpu_enabled : Bool
  pub concurrency_limit : Option PbConcurrencyLimit
  pub storage : Option PbWorkspaceStorage

pub record PbObject : Type 0 where
  pub id : ℕ  -- uint32
  pub external_id : String
  pub hash : String
  pub size : ℤ  -- int64
  pub workspace_id : ℕ  -- uint32

pub record PbStub : Type 0 where
  pub id : ℕ  -- uint32
  pub external_id : String
  pub name : String
  pub type : String
  pub config : String
  pub config_version : ℕ  -- uint32
  pub workspace_id : ℕ  -- uint32
  pub created_at : Option ℤ
  pub updated_at : Option ℤ

pub record PbStubWithRelated : Type 0 where
  pub stub : Option PbStub
  pub workspace : Option PbWorkspace
  pub object : Option PbObject

pub record PbBuildOptions : Type 0 where
  pub source_image : String
  pub dockerfile : String
  pub build_ctx_object : String
  pub source_image_creds : String
  pub build_secrets : List String

pub record PbCheckpoint : Type 0 where
  pub checkpoint_id : String
  pub external_id : String
  pub source_container_id : String
  pub container_ip : String
  pub status : String
  pub remote_key : String
  pub stub_type : String
  pub exposed_ports : List ℕ
  pub created_at : Option ℤ
  pub last_restored_at : Option ℤ

pub record PbContainerRequest : Type 0 where
  pub container_id : String
  pub entry_point : List String
  pub env : List String
  pub cpu : ℤ  -- int64
  pub memory : ℤ  -- int64
  pub gpu : String
  pub gpu_request : List String
  pub gpu_count : ℕ  -- uint32
  pub image_id : String
  pub stub_id : String
  pub workspace_id : String
  pub workspace : Option PbWorkspace
  pub stub : Option PbStubWithRelated
  pub timestamp : Option ℕ
  pub mounts : List PbMount
  pub retry_count : ℕ  -- int64
  pub pool_selector : String
  pub preemptable : Bool
  pub checkpoint_enabled : Bool
  pub build_options : Option PbBuildOptions
  pub ports : List ℕ
  pub cost_per_ms : ℕ  -- the bits of a float64
  pub app_id : String
  pub checkpoint : Option PbCheckpoint
  pub config_path : String
  pub image_credentials : String
  pub build_registry_credentials : String
  pub block_network : Bool
  pub allow_list : List String
  pub docker_enabled : Bool
