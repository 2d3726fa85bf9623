-- ===== src/Examples/Tasks.antt =====
-- A task store in memory.
use beta.Base.{
  ◌≡◌, refl, sym, ap, subst, Bool, true, false, ◌||◌, Bool-cases, inl, inr, none, some, List, [],
  ◌∷◌, Memᴰ, keep_if, ok, if◌then◌else◌, ◌⊎◌, ◌↔◌,
}
use beta.Base.Members.{cast, mem-keep_if, keep_if-mem}
use beta.Base.Io.{Io, Reads, Writes, ok-injective}
use beta.Task.Redis.{
  TaskRedis, TaskKey, TaskError, Slot, TaskStore, no_slot, change_slot, Removed, key_eq, is_present,
}
use beta.Task.Slots.{key_eq-≡}

-- The last change of a key's slot comes first.
abbrev pub Log : Type 0
Log = List (TaskKey × Slot)

abbrev pub slot_of : Log → TaskStore
slot_of [] j = no_slot
slot_of ((k, s) ∷ l) j = if key_eq k j then s else slot_of l j

abbrev pub record_slot : TaskKey → (Slot → Slot) → Log → Log
record_slot k f l = (k, f (slot_of l k)) ∷ l

record_slot-at :
    (k : TaskKey) (f : Slot → Slot) (l : Log) (j : TaskKey)
    → slot_of (record_slot k f l) j ≡ change_slot k f (slot_of l) j
record_slot-at k f l j = elim (Bool-cases (key_eq k j)) [
  | inl same ↦ rw same (ap (λ x. f (slot_of l x)) (key_eq-≡ k j same))
  | inr other ↦ rw other refl
]

pub record_slot-change :
    (k : TaskKey) (f : Slot → Slot) (l : Log)
    → slot_of (record_slot k f l) ≡ change_slot k f (slot_of l)
record_slot-change k f l = λ i j. record_slot-at k f l j i

abbrev pub change : TaskKey → (Slot → Slot) → Io Log TaskError (Unit {0})
change k f l = (ok tt, record_slot k f l)

pub change-Writes : (k : TaskKey) (f : Slot → Slot) → Writes slot_of (change k f) (change_slot k f)
change-Writes k f l = (λ a e. record_slot-change k f l, inr (record_slot-change k f l))

abbrev pub answer : {A : Type 0} → (Log → A) → Io Log TaskError A
answer f l = (ok (f l), l)

pub answer-Reads : {A : Type 0} (f : TaskStore → A) → Reads slot_of (answer (λ l. f (slot_of l))) f
answer-Reads f l = (refl, λ a e. sym (ok-injective e))

abbrev pub has : TaskKey → List TaskKey → Bool
has k [] = false
has k (j ∷ l) = key_eq j k || has k l

has-mem : (k : TaskKey) (l : List TaskKey) → has k l ≡ true → Memᴰ k l
has-mem k [] h = cc h
has-mem k (j ∷ l) h = elim (Bool-cases (key_eq j k)) [
  | inl same ↦ Memᴰ.head (sym (key_eq-≡ j k same))
  | inr other ↦ Memᴰ.tail (has-mem k l (subst (λ b. (b || has k l) ≡ true) other h))
]

-- Each key once.
abbrev pub keys_of : Log → List TaskKey
keys_of [] = []
keys_of ((k, s) ∷ l) = let rest = keys_of l in if has k rest then rest else k ∷ rest

keys_of-cons :
    (j : TaskKey) (s : Slot) (l : Log) (k : TaskKey)
    → (k ≡ j) ⊎ Memᴰ k (keys_of l)
    → Memᴰ k (keys_of ((j, s) ∷ l))
keys_of-cons j s l k m = elim (Bool-cases (has j (keys_of l))) [
  | inl again ↦
      rw again (elim m [ inl e ↦ cast e (has-mem j (keys_of l) again) | inr below ↦ below ])
  | inr new ↦ rw new (elim m [ inl e ↦ Memᴰ.head e | inr below ↦ Memᴰ.tail below ])
]

abbrev pub indexed_keys : Log → List TaskKey
indexed_keys l = keep_if (λ k. (slot_of l k).indexed) (keys_of l)

known-key : (l : Log) (k : TaskKey) → (slot_of l k).indexed ≡ true → Memᴰ k (keys_of l)
known-key [] k h = cc h
known-key ((j, s) ∷ l) k h = keys_of-cons j s l k (elim (Bool-cases (key_eq j k)) [
  | inl same ↦ inl (sym (key_eq-≡ j k same))
  | inr other ↦
      inr (known-key l k (subst (λ b. (if b then s else slot_of l k).indexed ≡ true) other h))
])

pub indexed_keys-members :
    (l : Log) (k : TaskKey) → Memᴰ k (indexed_keys l) ↔ ((slot_of l k).indexed ≡ true)
indexed_keys-members l k = (
  λ m. (mem-keep_if (λ k. (slot_of l k).indexed) (keys_of l) m).1,
  λ h. keep_if-mem (λ k. (slot_of l k).indexed) (keys_of l) (known-key l k h) h,
)

pub emptied : (s : Slot) → Removed s no_slot
emptied s = record {
  entry = inr refl;
  claim = inr refl;
  indexed = inr refl;
  stub_indexed = inr refl;
  claim_indexed = inr refl;
}

abbrev pub task_memory : TaskRedis
task_memory = record {
  Db = Log;
  view = slot_of;
  set_claim = λ k c. change k (λ s. record s { claim = some c });
  del_claim = λ k. change k (λ s. record s { claim = none });
  exists_claim = λ k. answer (λ l. is_present (slot_of l k).claim);
  sadd_claim = λ k. change k (λ s. record s { claim_indexed = true });
  srem_claim = λ k. change k (λ s. record s { claim_indexed = false });
  smembers_claims = λ ws stub. answer (λ l. []);
  sadd_index = λ k. change k (λ s. record s { indexed = true });
  smembers_index = answer indexed_keys;
  sadd_stub = λ k. change k (λ s. record s { stub_indexed = true });
  smembers_stub = λ ws stub. answer (λ l. []);
  set_entry = λ k m. change k (λ s. record s { entry = some m });
  get_entry = λ k. answer (λ l. (slot_of l k).entry);
  delete_all = λ k. change k (λ s. no_slot);
  acquire = λ k. answer (λ l. tt);
  release = λ k l. l;
  set_claim-Writes = λ k c. change-Writes k (λ s. record s { claim = some c });
  del_claim-Writes = λ k. change-Writes k (λ s. record s { claim = none });
  exists_claim-Reads = λ k. answer-Reads (λ s. is_present (s k).claim);
  sadd_claim-Writes = λ k. change-Writes k (λ s. record s { claim_indexed = true });
  srem_claim-Writes = λ k. change-Writes k (λ s. record s { claim_indexed = false });
  smembers_claims-Keeps = λ ws stub l. refl;
  sadd_index-Writes = λ k. change-Writes k (λ s. record s { indexed = true });
  smembers_index-Keeps = λ l. refl;
  smembers_index-members = λ l ks e k.
      subst (λ x. Memᴰ k x ↔ ((slot_of l k).indexed ≡ true)) (ok-injective e)
        (indexed_keys-members l k);
  sadd_stub-Writes = λ k. change-Writes k (λ s. record s { stub_indexed = true });
  smembers_stub-Keeps = λ ws stub l. refl;
  set_entry-Writes = λ k m. change-Writes k (λ s. record s { entry = some m });
  get_entry-Reads = λ k. answer-Reads (λ s. (s k).entry);
  delete_all-Writes = λ k l e. record_slot-change k (λ s. no_slot) l;
  delete_all-Removed =
      λ k l. (no_slot, record_slot-change k (λ s. no_slot) l, emptied (slot_of l k));
  acquire-Reads = λ k. answer-Reads (λ s. tt);
  release-view = λ k l. refl;
}
