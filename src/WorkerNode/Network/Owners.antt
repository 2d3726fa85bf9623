-- ===== src/WorkerNode/Network/Owners.antt =====
-- The addresses of a machine over time: containers are set up and torn down in any order, one at a
-- time under the network lock.
use beta.Base.{
  ◌≡◌, ◌∙◌, sym, ap, subst, ℕ, ◌≤◌, ◌<◌, String, true, false, Option, none, some, List, Result, ok,
}
use beta.Base.Io.{
  lift, Ensures, >>=-Ensures, >>-Ensures, finally-Ensures, pure-Ensures, fail-Ensures, call-Ensures,
}
use beta.Base.Safe.{
  Preserves, >>=-Preserves, >>-Preserves, lift-Preserves, finally-Preserves, pure-Preserves,
  fail-Preserves,
}
use beta.WorkerNode.Network.{
  occurs, AddressStore, set_address, index_octet, NetworkError, AddressRedis, choose_address,
  get_container_ips, get_container_ip, known, set_container_ip, remove_container_ip, with_choice,
  configure_container_network, tear_down,
}
use beta.WorkerNode.Network.Choice.{Lowest, choose_address-Lowest}
use beta.WorkerNode.Network.Exclusive.{
  IsExclusive, given-IsExclusive, Exclusive, same-IsExclusive, remove_container_ip-Preserves,
}

module _ (R : AddressRedis) where
  open R use {view, Db}

  -- A container that was set up has the lowest free address; nothing else has changed.
  pub record Given (v : AddressStore) (id : String) (x : ℕ) (v' : AddressStore) : Type 0 where
    pub low : 2 ≤ x
    pub high : x < 256
    pub free : occurs x v.index ≡ false
    pub lowest : (y : ℕ) → 2 ≤ y → y < x → occurs y v.index ≡ true
    pub stored : v' ≡ index_octet x (set_address id (some x) v)

  set_container_ip-Ensures :
      (id : String) (x : ℕ) (d : Db)
      → Ensures
          (set_container_ip R id x)
          d
          λ _ d'. view d' ≡ index_octet x (set_address id (some x) (view d))
  unfolding set_container_ip
  set_container_ip-Ensures id x d = >>-Ensures (R.set id x) (R.sadd x) λ e.
      call-Ensures
        λ a f. (R.sadd-Writes x _).0 a f ∙ ap (index_octet x) ((R.set-Writes id x d).0 tt e)

  with_choice-Ensures :
      (id : String) (routes : ℕ → Result NetworkError (Unit {0})) (allocated : List ℕ)
      (o : Option ℕ) (v : AddressStore) (d : Db)
      → Lowest allocated 2 256 o
      → allocated ≡ v.index
      → view d ≡ v
      → Ensures (with_choice R id routes o) d (λ x d'. Given v id x (view d'))
  unfolding lift
  with_choice-Ensures id routes allocated none v d h same now = fail-Ensures _
  with_choice-Ensures id routes allocated (some x) v d (low, high, free, lowest) same now =
      >>-Ensures (lift (routes x)) _ λ e. >>-Ensures (set_container_ip R id x) _ λ f.
        pure-Ensures x (record {
          low = low;
          high = high;
          free = subst (λ l. occurs x l ≡ false) same free;
          lowest = λ y a b. subst (λ l. occurs y l ≡ true) same (lowest y a b);
          stored =
              (set_container_ip-Ensures id x d).holds tt f
              ∙ ap (λ w. index_octet x (set_address id (some x) w)) now;
        })

  -- A set-up that succeeds has given the container the lowest address from 192.168.1.2 on that was
  -- not in the index, and has put it there; no other container's address has changed.
  pub configure_container_network-Given :
      (id : String) (links : Result NetworkError (Unit {0}))
      (routes : ℕ → Result NetworkError (Unit {0})) (d : Db) (x : ℕ)
      → (configure_container_network R id links routes d).0 ≡ ok x
      → Given (view d) id x (view (configure_container_network R id links routes d).1)
  unfolding configure_container_network get_container_ips lift
  configure_container_network-Given id links routes d x e = (given d).holds x e
    where
      given :
          (d : Db)
          → Ensures
              (configure_container_network R id links routes)
              d
              (λ x d'. Given (view d) id x (view d'))
      given d = >>-Ensures R.acquire _ λ f. finally-Ensures _ R.release (
          >>-Ensures (lift links) _ λ g. >>=-Ensures R.smembers _ λ ips h.
            let read = R.smembers-Reads (R.acquire d).1 in
            let locked = (R.acquire-Reads d).0 in
            call-Ensures λ y answered.
              subst (λ v. Given (view d) id y v) (sym (R.release-view _))
                ((with_choice-Ensures id routes ips (choose_address ips) (view d) _
                    (choose_address-Lowest ips)
                    (read.1 ips h ∙ ap (λ (v : AddressStore). v.index) locked)
                    (read.0 ∙ locked)).holds
                  y answered))

  get_container_ip-Preserves : (id : String) → Preserves (Exclusive R) (get_container_ip R id)
  unfolding get_container_ip
  get_container_ip-Preserves id =
      >>=-Preserves (Exclusive R) (R.get id) (known R)
        (λ d h. same-IsExclusive R (R.get-Reads id d).0 h) known-Preserves
    where
      known-Preserves : (o : Option ℕ) → Preserves (Exclusive R) (known R o)
      known-Preserves none = fail-Preserves (Exclusive R) _ _
      known-Preserves (some x) = pure-Preserves (Exclusive R) _ _

  tear_down-Preserves :
      (id : String) (links : ℕ → Result NetworkError (Unit {0}))
      → Preserves (Exclusive R) (tear_down R id links)
  unfolding tear_down
  tear_down-Preserves id links =
      >>-Preserves (Exclusive R) R.acquire _ (λ d h. same-IsExclusive R (R.acquire-Reads d).0 h)
        (finally-Preserves (Exclusive R) _ R.release
          (>>=-Preserves (Exclusive R) (get_container_ip R id) _ (get_container_ip-Preserves id)
            λ x.
              >>-Preserves (Exclusive R) (lift (links x)) (remove_container_ip R id)
                (lift-Preserves (Exclusive R) (links x)) (remove_container_ip-Preserves R id))
          λ d h. same-IsExclusive R (R.release-view d) h)

  -- Set-ups that succeed, or fail before the address is written, and tear-downs that succeed or fail
  -- anywhere. A set-up whose address is written but not put in the index is no step here: the
  -- address can then be given again.
  pub data Reach : Db → Type 0 where
    start : (d : Db) → ((id : String) → (view d).addresses id ≡ none) → Reach d
    configured :
        {d : Db} (id : String) (links : Result NetworkError (Unit {0}))
        (routes : ℕ → Result NetworkError (Unit {0})) (x : ℕ)
        → (configure_container_network R id links routes d).0 ≡ ok x
        → Reach d
        → Reach (configure_container_network R id links routes d).1
    not_configured :
        {d : Db} (id : String) (links : Result NetworkError (Unit {0}))
        (routes : ℕ → Result NetworkError (Unit {0}))
        → view (configure_container_network R id links routes d).1 ≡ view d
        → Reach d
        → Reach (configure_container_network R id links routes d).1
    torn_down :
        {d : Db} (id : String) (links : ℕ → Result NetworkError (Unit {0}))
        → Reach d
        → Reach (tear_down R id links d).1

  Reach-IsExclusive : {d : Db} → Reach d → IsExclusive (view d)
  Reach-IsExclusive (start d empty) = record {
    one_owner = λ i j x p q. cc (empty i, p);
    indexed = λ i x p. cc (empty i, p);
  }
  Reach-IsExclusive (configured {d} id links routes x e r) =
      let given = configure_container_network-Given id links routes d x e in
      same-IsExclusive R given.stored
        (given-IsExclusive id x (view d) given.free (Reach-IsExclusive r))
  Reach-IsExclusive (not_configured id links routes same r) =
      same-IsExclusive R same (Reach-IsExclusive r)
  Reach-IsExclusive (torn_down {d} id links r) =
      tear_down-Preserves id links d (Reach-IsExclusive r)

  -- In every state that is reached by set-ups that succeed or change nothing, and by tear-downs that
  -- may fail after any command, two containers that Redis holds the same address of are the same
  -- one, and the address is in the index.
  pub Reach-one_owner :
      {d : Db} (i j : String) (x : ℕ)
      → Reach d
      → (view d).addresses i ≡ some x
      → (view d).addresses j ≡ some x
      → (i ≡ j) × (occurs x (view d).index ≡ true)
  Reach-one_owner i j x r p q =
      let h = Reach-IsExclusive r in (h.one_owner i j x p q, h.indexed i x p)
