-- ===== src/Examples/Data.antt =====
-- Workers, requests and stores for the examples.
use beta.Base.{true, false, none, some, [], ◌∷◌}
use beta.Base.Int.{pos}
use beta.Types.Related.{Workspace, StubWithRelated, Mount, BuildOptions, ConcurrencyLimit}
use beta.Types.{Worker, ContainerRequest, ContainerState, available, pending, running}
use beta.Repository.Worker.Redis.{WorkerStore, update}
use beta.Repository.Container.Redis.{ContainerStore}

abbrev pub cpu_worker : Worker
cpu_worker = record {
  id = "w1";
  status = available;
  total_cpu = pos 8000;
  total_memory = pos 16384;
  total_gpu_count = 0;
  free_cpu = pos 4000;
  free_memory = pos 8192;
  free_gpu_count = 0;
  gpu = "";
  pool_name = "default";
  machine_id = "";
  resource_version = pos 7;
  requires_pool_selector = false;
  priority = pos 0;
  preemptable = false;
  build_version = "";
  runtime = "runc";
}

abbrev pub gpu_worker : Worker
gpu_worker = record cpu_worker {
  id = "w2";
  gpu = "T4";
  total_gpu_count = 2;
  free_gpu_count = 1;
  pool_name = "t4";
  status = pending;
}

abbrev pub workspace : Workspace
workspace = record {
  id = 1;
  external_id = "ws";
  name = "workspace";
  created_at = pos 0;
  updated_at = pos 0;
  signing_key = some "key";
  volume_cache_enabled = false;
  multi_gpu_enabled = true;
  concurrency_limit_id = none;
  concurrency_limit = none;
  storage_id = none;
  storage = none;
}

abbrev pub stub : StubWithRelated
stub = record {
  stub = record {
    id = 1;
    external_id = "s1";
    name = "stub";
    type = "function";
    config = "{}";
    config_version = 1;
    object_id = 1;
    workspace_id = 1;
    created_at = pos 0;
    updated_at = pos 0;
    is_public = false;
    app_id = 1;
  };
  workspace = workspace;
  object = record {
    id = 1;
    external_id = "o1";
    hash = "h";
    size = pos 10;
    workspace_id = 1;
    created_at = pos 0;
  };
  app = none;
}

abbrev pub mount : Mount
mount = record {
  local_path = "/data";
  mount_path = "/mnt/data";
  link_path = "";
  read_only = false;
  mount_type = "";
  mount_point_config = none;
}

abbrev pub no_build : BuildOptions
no_build = record {
  source_image = none;
  dockerfile = none;
  build_ctx_object = none;
  source_image_creds = "";
  build_secrets = [];
}

abbrev pub cpu_request : ContainerRequest
cpu_request = record {
  container_id = "c1";
  entry_point = "python3" ∷ [];
  env = [];
  workspace = workspace;
  stub = stub;
  mounts = mount ∷ [];
  build_options = no_build;
  ports = 8001 ∷ [];
  cost_per_ms = 0;
  app_id = "app";
  config_path = "";
  block_network = false;
  allow_list = [];
  cpu = pos 1000;
  memory = pos 1024;
  gpu = "";
  gpu_request = [];
  gpu_count = 0;
  image_id = "";
  stub_id = "s1";
  workspace_id = "ws";
  timestamp = 5;
  retry_count = 0;
  pool_selector = "";
  preemptable = false;
  checkpoint_enabled = false;
  checkpoint = none;
  image_credentials = "";
  build_registry_credentials = "";
  docker_enabled = false;
}

abbrev pub gpu_request : ContainerRequest
gpu_request = record cpu_request {
  container_id = "c2";
  gpu = "T4";
  gpu_request = "T4" ∷ "any" ∷ [];
  gpu_count = 3;
}

abbrev pub workers : WorkerStore
workers = record {
  workers = update (update (λ k. none) "w1" (some cpu_worker)) "w2" (some gpu_worker);
  index = "w1" ∷ "w2" ∷ [];
  requests = λ k. [];
}

abbrev pub running_container : ContainerState
running_container = record {
  container_id = "c0";
  stub_id = "s1";
  status = running;
  scheduled_at = pos 10;
  workspace_id = "ws";
  gpu = "T4";
  gpu_count = 1;
  cpu = pos 2000;
  memory = pos 1024;
  started_at = pos 12;
}

abbrev pub containers : ContainerStore
containers = record {
  states = update (λ k. none) "c0" (some running_container);
  stub_index = λ k. [];
  workspace_index = update (λ k. []) "ws" ("c0" ∷ "gone" ∷ []);
  worker_index = λ k. [];
  exit_codes = λ k. none;
  addresses = λ k. none;
}

abbrev pub limit : ConcurrencyLimit
limit = record {
  id = 1;
  external_id = "l1";
  workspace_id = 1;
  gpu_limit = 1;
  cpu_millicore_limit = 4000;
  created_at = pos 0;
  updated_at = pos 0;
}
