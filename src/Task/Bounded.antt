-- ===== src/Task/Bounded.antt =====
-- Operations keep the retries of every stored task within its policy.
use beta.Base.{
  ◌≡◌, ◌∙◌, refl, sym, subst, ℕ, ◌≤◌, inl, inr, String, false, Option, none, some, some-injective,
  List, [], ◌∷◌, All, arith, leb,
}
use beta.Base.Io.{Io, attempt}
use beta.Base.Safe.{
  Safe, Preserves, >>=-Safe, >>-Safe, >>=-Preserves, >>-Preserves, attempt-Safe, pure-Preserves,
  pure-Safe, lift-Preserves,
}
use beta.Task.Redis.{TaskRedis, TaskKey, TaskPolicy, TaskMessage, Slot}
use beta.Task.Store.{in_flight_among, drop_dangling, add_found, set_task_state}
use beta.Task.Dispatcher.{Executors, Encoding, new_message, send, with_retry}
use beta.Task.Slots.{Holds, set_task_state-Preserves, drop_dangling-Preserves}
use beta.Task.Steps.{MayRemove}
use beta.Task.Monitor.{MayMonitor}

abbrev pub IsBounded : TaskMessage → Type 0
IsBounded msg = msg.retries ≤ msg.policy.max_retries

module _ (R : TaskRedis) (executors : Executors R) (encode : Encoding) where
  abbrev pub StoresBounded : Slot → Type 0
  StoresBounded s = (msg : TaskMessage) → s.entry ≡ some msg → IsBounded msg

  abbrev pub AllBounded : R.Db → Type 0
  AllBounded d = (k : TaskKey) → StoresBounded (R.view d k)

  pub each :
      {E A : Type 0} (m : Io R.Db E A)
      → ((k : TaskKey) → Preserves (Holds R StoresBounded k) m)
      → Preserves AllBounded m
  each m h d q k = h k d (q k)

  pub removed-bounded : MayRemove StoresBounded
  removed-bounded s s' removed p msg e = elim removed.entry [
    | inl same ↦ p msg (sym same ∙ e)
    | inr gone ↦ cc (gone, e)
  ]

  stored-bounded :
      (new : TaskMessage)
      → IsBounded new
      → (s : Slot) → StoresBounded (record s { entry = some new })
  stored-bounded new h s msg e = subst IsBounded (some-injective e) h

  set_task_state-bounded :
      (k : TaskKey) (msg : TaskMessage)
      → IsBounded msg
      → Preserves AllBounded (set_task_state R k msg)
  set_task_state-bounded k msg h = each (set_task_state R k msg) λ j.
      set_task_state-Preserves R StoresBounded j k msg (λ e s p. p)
        (λ e s p. stored-bounded msg h s) (λ e s p. p) λ e. removed-bounded

  pub send-bounded :
      (executor : String) (k : TaskKey) (policy : TaskPolicy) (now : ℕ)
      → Preserves AllBounded (send R executors executor k policy now encode)
  unfolding send new_message
  send-bounded executor k policy now =
      >>=-Preserves AllBounded _ _ (lift-Preserves AllBounded _) λ t.
        >>-Preserves AllBounded _ _ (lift-Preserves AllBounded _) (
          >>-Preserves AllBounded _ _ (set_task_state-bounded k _ (omega arith))
            (pure-Preserves AllBounded _ _))

  with_retry-IsBounded :
      (msg : TaskMessage) (now : ℕ)
      → leb msg.policy.max_retries msg.retries ≡ false
      → IsBounded (with_retry msg now)
  unfolding with_retry
  with_retry-IsBounded msg now more = ground arith

  pub MayMonitor-bounded :
      (j : TaskKey) (clock now : ℕ) (msg : TaskMessage)
      → IsBounded msg
      → MayMonitor R StoresBounded j executors clock now msg
  MayMonitor-bounded j clock now msg h = record {
    unknown = λ e. removed-bounded;
    expired = λ s p unclaimed late. removed-bounded;
    missed = λ t made lawful s p claimed d q silent. (
      removed-bounded,
      λ more. record {
        no_claim = λ s p. p;
        no_claim_index = λ s p. p;
        index = λ s p. p;
        entry = λ s p. stored-bounded _ (with_retry-IsBounded t.message now more) s;
        stub_index = λ s p. p;
      },
    );
  }

  -- The messages of a listing are stored ones.
  add_found-IsBounded :
      (o : Option (Option TaskMessage)) (rest : List TaskMessage)
      → ((x : Option TaskMessage) → o ≡ some x → (msg : TaskMessage) → x ≡ some msg → IsBounded msg)
      → All IsBounded rest
      → All IsBounded (add_found R o rest)
  add_found-IsBounded none rest h a = a
  add_found-IsBounded (some none) rest h a = a
  add_found-IsBounded (some (some msg)) rest h a = (h (some msg) refl msg refl, a)

  get_entry-Safe :
      (k : TaskKey)
      → Safe AllBounded (R.get_entry k) λ o. (msg : TaskMessage) → o ≡ some msg → IsBounded msg
  get_entry-Safe k d q =
      let (same, answer) = R.get_entry-Reads k d in
      (
        subst (λ v. (j : TaskKey) → StoresBounded (v j)) (sym same) q,
        λ o e msg f. q k msg (sym (answer o e) ∙ f),
      )

  pub in_flight_among-Safe :
      (ks : List TaskKey) → Safe AllBounded (in_flight_among R ks) (All IsBounded)
  unfolding in_flight_among
  in_flight_among-Safe [] = pure-Safe AllBounded [] tt
  in_flight_among-Safe (k ∷ ks) =
      >>=-Safe AllBounded (attempt (R.get_entry k)) _
        (attempt-Safe AllBounded (R.get_entry k) (get_entry-Safe k))
        λ read bounded.
          >>-Safe AllBounded (drop_dangling R k read) _
            (each (drop_dangling R k read)
              λ j. drop_dangling-Preserves R StoresBounded j (λ k e. removed-bounded) k read)
            (>>=-Safe AllBounded (in_flight_among R ks) _ (in_flight_among-Safe ks)
              λ rest a. pure-Safe AllBounded _ (add_found-IsBounded read rest bounded a))
