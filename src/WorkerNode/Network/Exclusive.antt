-- ===== src/WorkerNode/Network/Exclusive.antt =====
-- No two containers have the same address.
use beta.Base.{
  ◌≡◌, ◌≢◌, ◌∙◌, refl, sym, ap, subst, ℕ, ◌⊎◌, inl, inr, String, true, false, Bool-cases, Option,
  none, some, some-injective, List, [], ◌∷◌, Result, ok, err, arith, ◌==◌, str_eq, str_eq_iff,
  if◌then◌else◌,
}
use beta.Base.Io.{continue, ◌>>=◌, ◌>>◌, pure, fail}
use beta.Base.Safe.{Preserves}
use beta.WorkerNode.Network.{
  occurs, drop_octet, AddressStore, set_address, index_octet, unindex_octet, NetworkError,
  AddressRedis, get_container_ip, known, remove_container_ip,
}

-- Each address has one container, and is in the index.
pub record IsExclusive (v : AddressStore) : Type 0 where
  pub one_owner : (i j : String) (x : ℕ) → v.addresses i ≡ some x → v.addresses j ≡ some x → i ≡ j
  pub indexed : (i : String) (x : ℕ) → v.addresses i ≡ some x → occurs x v.index ≡ true

occurs-drop_octet : (x y : ℕ) (l : List ℕ) → x ≢ y → occurs y (drop_octet x l) ≡ occurs y l
occurs-drop_octet x y [] ne = refl
occurs-drop_octet x y (z ∷ l) ne = ground (arith, occurs-drop_octet x y l ne)

occurs-index_octet :
    (x y : ℕ) (v : AddressStore) → occurs y v.index ≡ true → occurs y (index_octet x v).index ≡ true
occurs-index_octet x y v h = elim (Bool-cases (x == y)) [
  | inl same ↦ rw same refl
  | inr other ↦ rw other (occurs-drop_octet x y v.index (λ e. ground arith) ∙ h)
]

-- Who has an address after a change of one container's.
some-owner :
    (id : String) (x : ℕ) (v : AddressStore) (i : String) (y : ℕ)
    → (set_address id (some x) v).addresses i ≡ some y
    → ((id ≡ i) × (y ≡ x)) ⊎ (v.addresses i ≡ some y)
some-owner id x v i y p = elim (Bool-cases (str_eq id i)) [
  | inl same ↦ inl (
    (str_eq_iff id i).0 same,
    sym (some-injective (subst (λ b. (if b then some x else v.addresses i) ≡ some y) same p)),
  )
  | inr other ↦ inr (subst (λ b. (if b then some x else v.addresses i) ≡ some y) other p)
]

none-owner :
    (id : String) (v : AddressStore) (i : String) (y : ℕ)
    → (set_address id none v).addresses i ≡ some y
    → (id ≢ i) × (v.addresses i ≡ some y)
none-owner id v i y p = elim (Bool-cases (str_eq id i)) [
  | inl same ↦ cc (subst (λ b. (if b then none else v.addresses i) ≡ some y) same p)
  | inr other ↦ (
    λ e. cc (other, (str_eq_iff id i).1 e),
    subst (λ b. (if b then none else v.addresses i) ≡ some y) other p,
  )
]

set_none-IsExclusive :
    (id : String) (v : AddressStore) → IsExclusive v → IsExclusive (set_address id none v)
set_none-IsExclusive id v h = record {
  one_owner = λ i j x p q. h.one_owner i j x (none-owner id v i x p).1 (none-owner id v j x q).1;
  indexed = λ i x p. h.indexed i x (none-owner id v i x p).1;
}

-- An address that is not in the index is given to a container.
pub given-IsExclusive :
    (id : String) (x : ℕ) (v : AddressStore)
    → occurs x v.index ≡ false
    → IsExclusive v
    → IsExclusive (index_octet x (set_address id (some x) v))
given-IsExclusive id x v free h = record {
  one_owner = λ i j y p q. elim (some-owner id x v i y p) [
    | inl (own, e) ↦ elim (some-owner id x v j y q) [
      | inl (own', e') ↦ sym own ∙ own'
      | inr other ↦ absurd (taken j y e other)
    ]
    | inr other ↦ elim (some-owner id x v j y q) [
      | inl (own, e) ↦ absurd (taken i y e other)
      | inr other' ↦ h.one_owner i j y other other'
    ]
  ];
  indexed = λ i y p. elim (some-owner id x v i y p) [
    | inl (own, e) ↦ ground arith
    | inr other ↦ occurs-index_octet x y v (h.indexed i y other)
  ];
}
  where
    taken : (j : String) (y : ℕ) → y ≡ x → v.addresses j ≡ some y → ⊥
    taken j y e owned = cc (free, subst (λ z. occurs z v.index ≡ true) e (h.indexed j y owned))

released-IsExclusive :
    (id : String) (x : ℕ) (v : AddressStore)
    → v.addresses id ≡ some x
    → IsExclusive v
    → IsExclusive (unindex_octet x (set_address id none v))
released-IsExclusive id x v owned h = record {
  one_owner = (set_none-IsExclusive id v h).one_owner;
  indexed = λ i y p.
      let (other, kept) = none-owner id v i y p in
      occurs-drop_octet x y v.index (λ e. other (h.one_owner id i x owned (kept ∙ ap some (sym e))))
      ∙ h.indexed i y kept;
}

module _ (R : AddressRedis) where
  open R use {view, Db}

  abbrev pub Exclusive : Db → Type 0
  Exclusive d = IsExclusive (view d)

  pub same-IsExclusive : {v v' : AddressStore} → v' ≡ v → IsExclusive v → IsExclusive v'
  same-IsExclusive e h = subst IsExclusive (sym e) h

  -- The two deletions of `RemoveContainerIp`, wherever they fail.
  srem-IsExclusive :
      (id : String) (x : ℕ) (v : AddressStore) (y : Result NetworkError (Unit {0}) × Db)
      → v.addresses id ≡ some x
      → IsExclusive v
      → (y.0 ≡ ok tt → view y.1 ≡ set_address id none v)
      → (view y.1 ≡ v) ⊎ (view y.1 ≡ set_address id none v)
      → IsExclusive (view (continue (λ _. R.srem x) y).1)
  srem-IsExclusive id x v (ok u, d) owned h done _ = elim (R.srem-Writes x d).1 [
    | inl same ↦ same-IsExclusive (same ∙ done refl) (set_none-IsExclusive id v h)
    | inr changed ↦
        same-IsExclusive (changed ∙ ap (unindex_octet x) (done refl))
          (released-IsExclusive id x v owned h)
  ]
  srem-IsExclusive id x v (err e, d) owned h _ either = elim either [
    | inl same ↦ same-IsExclusive same h
    | inr changed ↦ same-IsExclusive changed (set_none-IsExclusive id v h)
  ]

  removed-IsExclusive :
      (id : String) (y : Result NetworkError (Option ℕ) × Db)
      → ((o : Option ℕ) → y.0 ≡ ok o → o ≡ (view y.1).addresses id)
      → Exclusive y.1
      → IsExclusive (view (continue (λ x. R.del id >> R.srem x) (continue (known R) y)).1)
  unfolding ◌>>◌ ◌>>=◌ fail pure
  removed-IsExclusive id (err e, d) read h = h
  removed-IsExclusive id (ok none, d) read h = h
  removed-IsExclusive id (ok (some x), d) read h =
      let (done, either) = R.del-Writes id d in
      srem-IsExclusive id x (view d) (R.del id d) (sym (read (some x) refl)) h (done tt) either

  pub remove_container_ip-Preserves : (id : String) → Preserves Exclusive (remove_container_ip R id)
  unfolding remove_container_ip get_container_ip ◌>>=◌
  remove_container_ip-Preserves id d h =
      let (same, read) = R.get-Reads id d in
      removed-IsExclusive id (R.get id d)
        (λ o e. read o e ∙ ap (λ (v : AddressStore). v.addresses id) (sym same))
        (same-IsExclusive same h)
