-- ===== src/WorkerNode/Network.antt =====
-- The addresses of the containers of a machine: `configureContainerNetwork` and `TearDown` of
-- pkg/worker/network.go, and the container addresses of pkg/repository/worker_redis.go. An address
-- of 192.168.1.0/24 is given by its last octet. The network of one machine is meant, so the prefix
-- of its keys is left out, and so is the expiry of its lock.
pub mod Choice
pub mod Exclusive
pub mod Owners
use beta.Base.{
  ℕ, zero, suc, ◌+◌, ◌≡◌, String, Bool, true, false, ◌||◌, Option, none, some, List, [], ◌∷◌,
  Result, ok, err, ◌==◌, str_eq, if◌then◌else◌,
}
use beta.Base.Io.{Io, Reads, Writes, ◌>>=◌, ◌>>◌, pure, fail, lift, finally}

abbrev pub occurs : ℕ → List ℕ → Bool
occurs x [] = false
occurs x (y ∷ l) = y == x || occurs x l

-- What Redis holds: the address of each container, and the index of the addresses.
pub record AddressStore : Type 0 where
  pub addresses : String → Option ℕ
  pub index : List ℕ

abbrev pub set_address : String → Option ℕ → AddressStore → AddressStore
set_address id a s = record s { addresses = λ j. if str_eq id j then a else s.addresses j }

abbrev pub drop_octet : ℕ → List ℕ → List ℕ
drop_octet x [] = []
drop_octet x (y ∷ l) = let rest = drop_octet x l in if y == x then rest else y ∷ rest

abbrev pub index_octet : ℕ → AddressStore → AddressStore
index_octet x s = record s { index = x ∷ drop_octet x s.index }

abbrev pub unindex_octet : ℕ → AddressStore → AddressStore
unindex_octet x s = record s { index = drop_octet x s.index }

pub data NetworkError : Type 0 where
  redis_failed lock_not_obtained no_address unknown_container link_failed : NetworkError

-- The commands on the keys; the name of a key is part of a command, and so is the second key that
-- the deletion of an address names, which is never set.
pub record AddressRedis : Type 1 where
  pub Db : Type 0
  pub view : Db → AddressStore
  pub acquire : Io Db NetworkError (Unit {0})
  pub release : Db → Db
  pub smembers : Io Db NetworkError (List ℕ)
  pub get : String → Io Db NetworkError (Option ℕ)
  pub set : String → ℕ → Io Db NetworkError (Unit {0})
  pub del : String → Io Db NetworkError (Unit {0})
  pub sadd : ℕ → Io Db NetworkError (Unit {0})
  pub srem : ℕ → Io Db NetworkError (Unit {0})
  pub acquire-Reads : Reads view acquire (λ s. tt)
  pub release-view : (d : Db) → view (release d) ≡ view d
  pub smembers-Reads : Reads view smembers (λ s. s.index)
  pub get-Reads : (id : String) → Reads view (get id) (λ s. s.addresses id)
  pub set-Writes : (id : String) (x : ℕ) → Writes view (set id x) (set_address id (some x))
  pub del-Writes : (id : String) → Writes view (del id) (set_address id none)
  pub sadd-Writes : (x : ℕ) → Writes view (sadd x) (index_octet x)
  pub srem-Writes : (x : ℕ) → Writes view (srem x) (unindex_octet x)

-- The loop over the subnet from `octet` on, with `n` addresses to go; it skips the subnet's own
-- address and the gateway's.
unfoldable pub first_free : ℕ → ℕ → List ℕ → Option ℕ
first_free zero octet allocated = none
first_free (suc n) octet allocated =
    let later = first_free n (octet + 1) allocated in
    if octet == 1 || octet == 0 then later else if occurs octet allocated then later else some octet

abbrev pub subnet_size : ℕ
subnet_size = 256

unfoldable pub choose_address : List ℕ → Option ℕ
unfolding first_free
choose_address allocated = first_free subnet_size 0 allocated

module _ (R : AddressRedis) where
  open R use {Db, acquire, release, smembers, get, set, del, sadd, srem}

  unfoldable pub get_container_ips : Io Db NetworkError (List ℕ)
  get_container_ips = smembers

  abbrev pub known : Option ℕ → Io Db NetworkError ℕ
  known none = fail unknown_container
  known (some x) = pure x

  unfoldable pub get_container_ip : String → Io Db NetworkError ℕ
  get_container_ip id = get id >>= known

  unfoldable pub set_container_ip : String → ℕ → Io Db NetworkError (Unit {0})
  set_container_ip id x = set id x >> sadd x

  unfoldable pub remove_container_ip : String → Io Db NetworkError (Unit {0})
  unfolding get_container_ip
  remove_container_ip id = get_container_ip id >>= λ x. del id >> srem x

  -- `links` is what the kernel answers to the calls before the address is chosen, and `routes` what
  -- it answers to the ones that give the address to the interface.
  abbrev pub with_choice :
      String → (ℕ → Result NetworkError (Unit {0})) → Option ℕ → Io Db NetworkError ℕ
  with_choice id routes none = fail no_address
  with_choice id routes (some x) = lift (routes x) >> (set_container_ip id x >> pure x)

  unfoldable pub configure_container_network :
      String
      → Result NetworkError (Unit {0})
      → (ℕ → Result NetworkError (Unit {0}))
      → Io Db NetworkError ℕ
  configure_container_network id links routes =
      acquire
      >> finally
          (lift links >> (get_container_ips >>= λ ips. with_choice id routes (choose_address ips)))
          release

  -- `links` is what the kernel answers while the interface and the rules are removed, for the
  -- address that `getContainerNetworkInfo` has read.
  unfoldable pub tear_down :
      String → (ℕ → Result NetworkError (Unit {0})) → Io Db NetworkError (Unit {0})
  tear_down id links =
      acquire
      >> finally (get_container_ip id >>= λ x. lift (links x) >> remove_container_ip id) release
