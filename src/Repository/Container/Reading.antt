-- ===== src/Repository/Container/Reading.antt =====
-- Reading one container's state changes no stored value, whether it answers or not.
use beta.Base.{String, Option, none, some}
use beta.Base.Keeps.{Keeps, >>=-Keeps, >>-Keeps, pure-Keeps, fail-Keeps, finally-Keeps}
use beta.Types.{ContainerState}
use beta.Repository.Container.Redis.{ContainerRedis}
use beta.Repository.Container.{get_container_state, found_state}

module _ (R : ContainerRedis) where
  open R use {view}

  found_state-Keeps : (k : String) (o : Option ContainerState) → Keeps view (found_state R k o)
  found_state-Keeps k none = fail-Keeps view _ _
  found_state-Keeps k (some c) = pure-Keeps view _ c

  pub get_container_state-same : (k : String) → Keeps view (get_container_state R k)
  unfolding get_container_state
  get_container_state-same k =
      >>-Keeps view _ _ (λ d. (R.acquire-Reads k d).0)
        (finally-Keeps view _ _
          (>>=-Keeps view _ _ (λ d. (R.hgetall-Reads k d).0) (found_state-Keeps k))
          (R.release-view k))
