-- ===== src/Examples/Stores.antt =====
-- Services that meet the interfaces: stores in memory that never fail.
use beta.Base.{
  map, ◌≡◌, refl, sym, String, true, none, some, List, [], ◌∷◌, ◌++◌, Result, ok, err, inr, length,
}
use beta.Base.Io.{Io, Reads, Writes, ok-injective}
use beta.Types.{ContainerRequest}
use beta.Repository.Worker.Redis.{
  WorkerRedis, WorkerStore, RepoError, redis_failed, set_worker, set_requests, index_add,
  index_remove, head?, tail,
}
use beta.Repository.Worker.Redis
use beta.Repository.Container.Redis.{
  ContainerRedis, ContainerStore, ContainerError, Index, members, add_member, remove_member,
  set_state, merge_state, set_exit_code,
}
use beta.Repository.Container.Redis as Containers

-- A command that reads, and one that writes.
unfoldable pub answer_with : {V E A : Type 0} → (V → A) → Io V E A
answer_with f v = (ok (f v), v)

unfoldable pub change_by : {V E : Type 0} → (V → V) → Io V E (Unit {0})
change_by f v = (ok tt, f v)

abbrev itself : {V : Type 0} → V → V
itself v = v

pub answer_with-Reads :
    {V E A : Type 0} (f : V → A) → Reads itself (answer_with {V = V} {E = E} f) f
unfolding answer_with
answer_with-Reads f v = (refl, λ a e. sym (ok-injective e))

pub change_by-Writes : {V E : Type 0} (f : V → V) → Writes itself (change_by {V = V} {E = E} f) f
unfolding change_by
change_by-Writes f v = (λ a e. refl, inr refl)

pub answer_with-view :
    {V A : Type 0} (E : Type 0) (f : V → A) (v : V) → itself (answer_with {V = V} {E = E} f v).1 ≡ v
unfolding answer_with
answer_with-view E f v = refl

-- LPOP
abbrev first_of_list : List ContainerRequest → Result RepoError ContainerRequest
first_of_list [] = err redis_failed
first_of_list (r ∷ l) = ok r

unfoldable pub pop_first : String → Io WorkerStore RepoError ContainerRequest
pop_first k v = (first_of_list (v.requests k), set_requests k (tail (v.requests k)) v)

pub first_of_list-head? :
    (l : List ContainerRequest) (r : ContainerRequest) → first_of_list l ≡ ok r → head? l ≡ some r
first_of_list-head? [] r e = cc
first_of_list-head? (x ∷ l) r e = cc

pub pop_first-Writes :
    (k : String) → Writes itself (pop_first k) (λ s. set_requests k (tail (s.requests k)) s)
unfolding pop_first
pop_first-Writes k s = (λ a e. refl, inr refl)

pub pop_first-head? :
    (k : String) (s : WorkerStore) (r : ContainerRequest)
    → (pop_first k s).0 ≡ ok r
    → head? (s.requests k) ≡ some r
unfolding pop_first
pop_first-head? k s r e = first_of_list-head? (s.requests k) r e

abbrev pub worker_memory : WorkerRedis
worker_memory = record {
  Db = WorkerStore;
  view = itself;
  acquire = λ k. answer_with (λ s. tt);
  release = λ k s. s;
  hgetall = λ k. answer_with (λ s. s.workers k);
  hset = λ k w. change_by (set_worker k (some w));
  exists = λ k. answer_with (λ s. Redis.is_present (s.workers k));
  expire = λ k n. answer_with (λ s. tt);
  del_state = λ k. change_by (set_worker k none);
  del_requests = λ k. change_by (set_requests k []);
  sadd = λ k. change_by (index_add k);
  srem = λ k. change_by (index_remove k);
  rpush = λ k r. change_by (λ s. set_requests k (s.requests k ++ r ∷ []) s);
  llen = λ k. answer_with (λ s. length (s.requests k));
  lpop = pop_first;
  smembers = answer_with (λ s. s.index);
  hgetall_each = λ ks. answer_with (λ s. map s.workers ks);
  acquire-Reads = λ k. answer_with-Reads (λ s. tt);
  release-view = λ k s. refl;
  hgetall-Reads = λ k. answer_with-Reads (λ s. s.workers k);
  hset-Writes = λ k w. change_by-Writes (set_worker k (some w));
  exists-Reads = λ k. answer_with-Reads (λ s. Redis.is_present (s.workers k));
  expire-Reads = λ k n. answer_with-Reads (λ s. tt);
  del_state-Writes = λ k. change_by-Writes (set_worker k none);
  del_requests-Writes = λ k. change_by-Writes (set_requests k []);
  sadd-Writes = λ k. change_by-Writes (index_add k);
  srem-Writes = λ k. change_by-Writes (index_remove k);
  rpush-Writes = λ k r. change_by-Writes (λ s. set_requests k (s.requests k ++ r ∷ []) s);
  llen-Reads = λ k. answer_with-Reads (λ s. length (s.requests k));
  lpop-Writes = pop_first-Writes;
  lpop-answer = pop_first-head?;
  smembers-Reads = answer_with-Reads (λ s. s.index);
  hgetall_each-Reads = λ ks. answer_with-Reads (λ s. map s.workers ks);
}

abbrev pub container_memory : ContainerRedis
container_memory = record {
  Db = ContainerStore;
  view = itself;
  acquire = λ k. answer_with (λ s. tt);
  release = λ k s. s;
  obtain_limit = λ k. answer_with (λ s. true);
  release_limit = λ k s. s;
  hgetall = λ k. answer_with (λ s. s.states k);
  hset = λ k c. change_by (set_state k (some c));
  hset_new = λ k c. change_by (merge_state k c);
  exists = λ k. answer_with (λ s. Containers.is_present (s.states k));
  exit_code_exists = λ k. answer_with (λ s. Containers.is_present (s.exit_codes k));
  expire = λ k n. answer_with (λ s. tt);
  del_state = λ k. change_by (set_state k none);
  del_addresses =
      λ k. change_by (λ s. record s { addresses = Containers.update s.addresses k none });
  sadd = λ i k. change_by (add_member i k);
  srem = λ i k. change_by (remove_member i k);
  smembers = λ i. answer_with (members i);
  set_ex_exit_code = λ k c. change_by (set_exit_code k c);
  acquire-Reads = λ k. answer_with-Reads (λ s. tt);
  release-view = λ k s. refl;
  obtain_limit-view = λ k s. answer_with-view _ (λ s. true) s;
  release_limit-view = λ k s. refl;
  hgetall-Reads = λ k. answer_with-Reads (λ s. s.states k);
  hset-Writes = λ k c. change_by-Writes (set_state k (some c));
  hset_new-Writes = λ k c. change_by-Writes (merge_state k c);
  exists-Reads = λ k. answer_with-Reads (λ s. Containers.is_present (s.states k));
  exit_code_exists-Reads = λ k. answer_with-Reads (λ s. Containers.is_present (s.exit_codes k));
  expire-Reads = λ k n. answer_with-Reads (λ s. tt);
  del_state-Writes = λ k. change_by-Writes (set_state k none);
  del_addresses-Writes =
      λ k. change_by-Writes (λ s. record s { addresses = Containers.update s.addresses k none });
  sadd-Writes = λ i k. change_by-Writes (add_member i k);
  srem-Writes = λ i k. change_by-Writes (remove_member i k);
  smembers-Reads = λ i. answer_with-Reads (members i);
  set_ex_exit_code-Writes = λ k c. change_by-Writes (set_exit_code k c);
}
