-- ===== src/Examples/Addresses.antt =====
-- Two containers that are set up on a machine, in a store in memory.
use beta.Base.{◌≡◌, refl, sym, ℕ, inr, String, true, none, some, [], ◌∷◌, Result, ok}
use beta.Base.Io.{Io, Reads, Writes, ok-injective, ◌>>=◌, ◌>>◌, pure, fail, lift, finally}
use beta.WorkerNode.Network.{
  AddressStore, AddressRedis, NetworkError, set_address, index_octet, unindex_octet, occurs,
  choose_address, first_free, get_container_ips, set_container_ip, configure_container_network,
}
use beta.WorkerNode.Network.Choice.{Lowest, choose_address-Lowest}
use beta.WorkerNode.Network.Owners.{
  Given, Reach, start, configured, configure_container_network-Given, Reach-one_owner,
}

abbrev reading : {A : Type 0} → (AddressStore → A) → Io AddressStore NetworkError A
reading f s = (ok (f s), s)

abbrev writing : (AddressStore → AddressStore) → Io AddressStore NetworkError (Unit {0})
writing f s = (ok tt, f s)

reading-Reads : {A : Type 0} (f : AddressStore → A) → Reads (λ s. s) (reading f) f
reading-Reads f s = (refl, λ a e. sym (ok-injective e))

writing-Writes : (f : AddressStore → AddressStore) → Writes (λ s. s) (writing f) f
writing-Writes f s = (λ a e. refl, inr refl)

abbrev address_memory : AddressRedis
address_memory = record {
  Db = AddressStore;
  view = λ s. s;
  acquire = reading (λ s. tt);
  release = λ s. s;
  smembers = reading (λ s. s.index);
  get = λ id. reading (λ s. s.addresses id);
  set = λ id x. writing (set_address id (some x));
  del = λ id. writing (set_address id none);
  sadd = λ x. writing (index_octet x);
  srem = λ x. writing (unindex_octet x);
  acquire-Reads = reading-Reads (λ s. tt);
  release-view = λ s. refl;
  smembers-Reads = reading-Reads (λ s. s.index);
  get-Reads = λ id. reading-Reads (λ s. s.addresses id);
  set-Writes = λ id x. writing-Writes (set_address id (some x));
  del-Writes = λ id. writing-Writes (set_address id none);
  sadd-Writes = λ x. writing-Writes (index_octet x);
  srem-Writes = λ x. writing-Writes (unindex_octet x);
}

abbrev no_addresses : AddressStore
no_addresses = record { addresses = λ id. none; index = [] }

abbrev set_up : String → AddressStore → Result NetworkError ℕ × AddressStore
set_up id s = configure_container_network address_memory id (ok tt) (λ x. ok tt) s

choose_address-Lowest_example : Lowest (2 ∷ 4 ∷ 3 ∷ []) 2 256 (choose_address (2 ∷ 4 ∷ 3 ∷ []))
choose_address-Lowest_example = choose_address-Lowest (2 ∷ 4 ∷ 3 ∷ [])

set_up_first : (set_up "c1" no_addresses).0 ≡ ok 2
unfolding configure_container_network get_container_ips set_container_ip choose_address first_free
    ◌>>=◌ ◌>>◌ pure fail lift finally
set_up_first = refl

set_up_second : (set_up "c2" (set_up "c1" no_addresses).1).0 ≡ ok 3
unfolding configure_container_network get_container_ips set_container_ip choose_address first_free
    ◌>>=◌ ◌>>◌ pure fail lift finally
set_up_second = refl

configure_container_network-Given_example :
    Given address_memory no_addresses "c1" 2 (set_up "c1" no_addresses).1
configure_container_network-Given_example =
    configure_container_network-Given address_memory "c1" (ok tt) (λ x. ok tt) no_addresses 2
      set_up_first

abbrev two_containers : AddressStore
two_containers = (set_up "c2" (set_up "c1" no_addresses).1).1

two_containers-Reach : Reach address_memory two_containers
two_containers-Reach =
    configured "c2" (ok tt) (λ x. ok tt) 3 set_up_second
      (configured "c1" (ok tt) (λ x. ok tt) 2 set_up_first (start no_addresses λ id. refl))

c2_address : two_containers.addresses "c2" ≡ some 3
unfolding configure_container_network get_container_ips set_container_ip choose_address first_free
    ◌>>=◌ ◌>>◌ pure fail lift finally
c2_address = refl

abbrev second_container : String
second_container = "c2"

Reach-one_owner_example :
    (second_container ≡ second_container) × (occurs 3 two_containers.index ≡ true)
Reach-one_owner_example =
    Reach-one_owner address_memory second_container second_container 3 two_containers-Reach
      c2_address c2_address
