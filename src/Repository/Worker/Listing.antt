-- ===== src/Repository/Worker/Listing.antt =====
-- Which workers `GetAllWorkersInPool` lists.
use beta.Base.{
  ◌≡◌, refl, sym, ◌∙◌, ap, subst, String, Bool, false, Option, none, some, List, [], ◌∷◌, Memᴰ, map,
  str_eq, str_eq_iff,
}
use beta.Base.Io.{attempt, Ensures, >>=-Ensures, pure-Ensures, Ensures-map}
use beta.Base.Members.{mem-keep_if, keep_if-mem}
use beta.Types.{Worker}
use beta.Repository.Worker.Redis.{WorkerRedis, WorkerStore}
use beta.Repository.Worker.Index.{
  collect_found, get_workers, get_workers_from_keys, get_all_workers_in_pool,
}

-- The stored workers of the pool that are in the index, and no others.
pub record ListedIn (pool : String) (s : WorkerStore) (ws : List Worker) : Type 0 where
  pub sound :
      (w : Worker)
      → Memᴰ w ws
      → (w.pool_name ≡ pool) × ((k : String) × Memᴰ k s.index × (s.workers k ≡ some w))
  pub complete :
      (k : String) (w : Worker)
      → Memᴰ k s.index
      → s.workers k ≡ some w
      → w.pool_name ≡ pool
      → Memᴰ w ws

record FoundAt (f : String → Option Worker) (ks : List String) (ws : List Worker) : Type 0 where
  sound : (w : Worker) → Memᴰ w ws → (k : String) × Memᴰ k ks × (f k ≡ some w)
  complete : (k : String) (w : Worker) → Memᴰ k ks → f k ≡ some w → Memᴰ w ws

FoundAt-none :
    (f : String → Option Worker) (k : String) (ks : List String) (ws : List Worker)
    → f k ≡ none
    → FoundAt f ks ws
    → FoundAt f (k ∷ ks) ws
FoundAt-none f k ks ws e h = record {
  sound = λ w m. let (j, below, found) = h.sound w m in (j, Memᴰ.tail below, found);
  complete = λ j w m found. elim m [
    | Memᴰ.head same ↦ cc (same, e, found)
    | Memᴰ.tail below ↦ h.complete j w below found
  ];
}

FoundAt-some :
    (f : String → Option Worker) (k : String) (ks : List String) (x : Worker) (ws : List Worker)
    → f k ≡ some x
    → FoundAt f ks ws
    → FoundAt f (k ∷ ks) (x ∷ ws)
FoundAt-some f k ks x ws e h = record {
  sound = λ w m. elim m [
    | Memᴰ.head same ↦ (k, Memᴰ.head refl, cc (same, e))
    | Memᴰ.tail below ↦ let (j, at, found) = h.sound w below in (j, Memᴰ.tail at, found)
  ];
  complete = λ j w m found. elim m [
    | Memᴰ.head same ↦ Memᴰ.head (cc (same, e, found))
    | Memᴰ.tail below ↦ Memᴰ.tail (h.complete j w below found)
  ];
}

module _ (R : WorkerRedis) where
  collect_found-next :
      (f : String → Option Worker) (k : String) (ks : List String) (d : R.Db) (x : Option Worker)
      → f k ≡ x
      → ((d : R.Db) → Ensures (collect_found R ks (map f ks)) d (λ ws d'. FoundAt f ks ws))
      → Ensures (collect_found R (k ∷ ks) (x ∷ map f ks)) d (λ ws d'. FoundAt f (k ∷ ks) ws)
  unfolding collect_found
  collect_found-next f k ks d none e rest =
      >>=-Ensures (attempt (R.srem k)) _
        λ a h. Ensures-map (rest _) λ ws d' h. FoundAt-none f k ks ws e h
  collect_found-next f k ks d (some x) e rest =
      >>=-Ensures (collect_found R ks (map f ks)) _
        λ ws h. pure-Ensures _ (FoundAt-some f k ks x ws e ((rest d).holds ws h))

  collect_found-FoundAt :
      (f : String → Option Worker) (ks : List String) (d : R.Db)
      → Ensures (collect_found R ks (map f ks)) d (λ ws d'. FoundAt f ks ws)
  unfolding collect_found
  collect_found-FoundAt f [] d =
      pure-Ensures _ (record { sound = λ w m. elim m [ ]; complete = λ k w m e. elim m [ ] })
  collect_found-FoundAt f (k ∷ ks) d =
      collect_found-next f k ks d (f k) refl (collect_found-FoundAt f ks)

  get_workers-FoundAt :
      (d : R.Db)
      → Ensures (get_workers R false) d λ ws d'. FoundAt (R.view d).workers (R.view d).index ws
  unfolding get_workers get_workers_from_keys
  get_workers-FoundAt d = >>=-Ensures R.smembers _ λ ks e.
      >>=-Ensures (R.hgetall_each ks) _ λ found g.
        let (same, keys) = R.smembers-Reads d in
        let f = (R.view d).workers in
        let d1 = (R.hgetall_each ks (R.smembers d).1).1 in
        let answer =
          (R.hgetall_each-Reads ks (R.smembers d).1).1 found g
          ∙ ap (λ (s : WorkerStore). map s.workers ks) same in
        subst (λ l. Ensures (collect_found R ks l) d1 (λ ws d'. FoundAt f (R.view d).index ws))
          (sym answer)
          (subst (λ l. Ensures (collect_found R ks (map f ks)) d1 (λ ws d'. FoundAt f l ws))
            (keys ks e) (collect_found-FoundAt f ks d1))

  pub get_all_workers_in_pool-ListedIn :
      (pool : String) (d : R.Db)
      → Ensures (get_all_workers_in_pool R pool) d (λ ws d'. ListedIn pool (R.view d) ws)
  unfolding get_all_workers_in_pool
  get_all_workers_in_pool-ListedIn pool d = >>=-Ensures (get_workers R false) _ λ ws e.
      let h = (get_workers-FoundAt d).holds ws e in
      pure-Ensures _ (record {
        sound = λ w m.
            let (below, own) = mem-keep_if in_pool ws m in
            ((str_eq_iff w.pool_name pool).0 own, h.sound w below);
        complete = λ k w m stored own.
            keep_if-mem in_pool ws (h.complete k w m stored) ((str_eq_iff w.pool_name pool).1 own);
      })
    where
      in_pool : Worker → Bool
      in_pool w = str_eq w.pool_name pool
