-- ===== src/RequestBuffer/Stuck.antt =====
-- A container whose counter is absent when a request takes a token.
use mathlib.Core.Path.{subst}
use beta.Base.{
  ℕ, suc, ◌+◌, ◌≤◌, ◌≡◌, ◌≢◌, refl, sym, ap, ◌∙◌, String, true, false, Option, none, some, Result,
  ok, err, arith,
}
use beta.Base.Int.{ℤ, pos, negsuc, pos_part, neg_part, ltb_ℤ, ◌+ℤ◌, int_laws}
use beta.Base.Io.{◌>>=◌, continue, attempt, fail}
use beta.RequestBuffer.{
  TokenRedis, TokenError, StubConfig, Bucket, added, created, count_or_zero, settle,
  acquire_request_token,
}
use beta.RequestBuffer.Buckets.{
  bucket-change_bucket, bucket-turns, request_tokens-Preserves, settle_refused-turns,
}
use beta.RequestBuffer.Tokens.{
  Traffic, IsQuiet, Step, Reach, discovered, took, overdrew, not_taken, admitted, not_admitted,
  turned_away, released, not_released, lapsed, not_lapsed, finished, expired, elsewhere, here,
  later,
}

-- A counter without a time to live, that stays at zero or below when the `n` requests that overdrew
-- it have taken their decrements back.
abbrev pub Spent : ℕ → Option Bucket → Type 0
Spent n none = ⊥
Spent n (some b) = (pos_part b.tokens + n ≤ neg_part b.tokens) × (b.expires ≡ false)

Spent-drop : (n : ℕ) (o : Option Bucket) → Spent (suc n) o → Spent n o
Spent-drop n none h = elim h [ ]
Spent-drop n (some b) (h, e) = (omega arith, e)

Spent-incr : (n : ℕ) (o : Option Bucket) → Spent (suc n) o → Spent n (added (pos 1) o)
Spent-incr n none h = elim h [ ]
Spent-incr n (some b) (h, e) = (omega int_laws, e)

Spent-decr : (n : ℕ) (o : Option Bucket) → Spent n o → Spent (suc n) (added (negsuc 0) o)
Spent-decr n none h = elim h [ ]
Spent-decr n (some b) (h, e) = (omega int_laws, e)

Spent-created : (n : ℕ) (x : ℤ) (o : Option Bucket) → Spent n o → Spent n (created x o)
Spent-created n x none h = elim h [ ]
Spent-created n x (some b) h = h

Spent-overdrawn :
    (n : ℕ) (o : Option Bucket) → Spent n o → ltb_ℤ (count_or_zero o +ℤ negsuc 0) (pos 0) ≡ true
unfolding ◌+ℤ◌
Spent-overdrawn n none h = elim h [ ]
Spent-overdrawn n (some b) (h, e) = ground arith

Spent-lasts : (n : ℕ) (b : Bucket) (o : Option Bucket) → Spent n o → o ≡ some b → b.expires ≡ false
Spent-lasts n b none h e = elim h [ ]
Spent-lasts n b (some b') (h, f) e = cc

-- No request holds a token, and none can be taken.
pub record IsStuck (R : TokenRedis) (config : StubConfig) (c : String) (t : Traffic R config c)
    : Type 0 where
  pub spent : Spent t.refused (R.view t.db c)
  pub taken : t.taken ≡ 0
  pub serving : t.serving ≡ 0
  pub releasing : t.releasing ≡ 0

module _ (R : TokenRedis) (config : StubConfig) (c : String) where
  open R use {Db, view}

  decr-overdrawn :
      (k : ℕ) (d : Db) (n : ℤ) → (R.decr c d).0 ≡ ok n → Spent k (view d c) → ltb_ℤ n (pos 0) ≡ true
  decr-overdrawn k d n e h =
      subst (λ x. ltb_ℤ x (pos 0) ≡ true) (sym ((R.decr-Updates c d).0 n e).0)
        (Spent-overdrawn k (view d c) h)

  decr-Spent :
      (k : ℕ) (d : Db) (n : ℤ)
      → (R.decr c d).0 ≡ ok n
      → Spent k (view d c)
      → Spent (suc k) (view (R.decr c d).1 c)
  decr-Spent k d n e h =
      subst (Spent (suc k))
        (sym (bucket-change_bucket c (added (negsuc 0)) (view d) _ ((R.decr-Updates c d).0 n e).1))
        (Spent-decr k (view d c) h)

  decr_failed-Spent : (k : ℕ) (d : Db) → Spent k (view d c) → Spent k (view (R.decr c d).1 c)
  decr_failed-Spent k d h =
      bucket-turns R c _ _ (λ s. count_or_zero (s c) +ℤ negsuc 0) (Spent k) (Spent k) d
        (R.decr-Updates c) (λ o q. q) (λ o q. Spent-drop k _ (Spent-decr k o q)) h

  Step-lapses : {t u : Traffic R config c} → Step R config c t u → t.lapses ≤ u.lapses
  Step-lapses discovered = omega arith
  Step-lapses (took n e f) = omega arith
  Step-lapses (overdrew n e f) = omega arith
  Step-lapses (not_taken x e) = omega arith
  Step-lapses (admitted n k f e g) = omega arith
  Step-lapses (not_admitted n k x f e g) = omega arith
  Step-lapses (turned_away n k f e) = omega arith
  Step-lapses (released k e g) = omega arith
  Step-lapses (not_released k x e g) = omega arith
  Step-lapses (lapsed e) = omega arith
  Step-lapses (not_lapsed x e) = omega arith
  Step-lapses (finished k task_id e) = omega arith
  Step-lapses (expired b d quiet e f g) = omega arith
  Step-lapses (elsewhere d e) = omega arith

  Reach-lapses : {t u : Traffic R config c} → Reach R config c t u → t.lapses ≤ u.lapses
  Reach-lapses here = omega arith
  Reach-lapses (later r s) = omega (arith, Reach-lapses r, Step-lapses s)

  Step-IsStuck :
      {t u : Traffic R config c}
      → Step R config c t u
      → u.lapses ≡ t.lapses
      → IsStuck R config c t
      → IsStuck R config c u
  Step-IsStuck {t} discovered same h = record {
    spent =
        request_tokens-Preserves R config c (Spent t.refused) (Spent-created t.refused _) t.db
          h.spent;
    taken = h.taken;
    serving = h.serving;
    releasing = h.releasing;
  }
  Step-IsStuck {t} (took n e f) same h = cc (decr-overdrawn t.refused t.db n e h.spent)
  Step-IsStuck {t} (overdrew n e f) same h = record {
    spent = decr-Spent t.refused t.db n e h.spent;
    taken = h.taken;
    serving = h.serving;
    releasing = h.releasing;
  }
  Step-IsStuck {t} (not_taken x e) same h = record {
    spent = decr_failed-Spent t.refused t.db h.spent;
    taken = h.taken;
    serving = h.serving;
    releasing = h.releasing;
  }
  Step-IsStuck {t} (admitted n k f e g) same h = absurd (omega (arith, h.taken))
  Step-IsStuck {t} (not_admitted n k x f e g) same h = absurd (omega (arith, h.taken))
  Step-IsStuck {t} (turned_away n k f e) same h = record {
    spent =
        settle_refused-turns R config c n (Spent (suc k)) (Spent k) t.db f (Spent-drop k)
          (Spent-incr k) (subst (λ j. Spent j (view t.db c)) e h.spent);
    taken = h.taken;
    serving = h.serving;
    releasing = h.releasing;
  }
  Step-IsStuck {t} (released k e g) same h = absurd (omega (arith, h.serving))
  Step-IsStuck {t} (not_released k x e g) same h = absurd (omega (arith, h.serving))
  Step-IsStuck {t} (lapsed e) same h = absurd (omega (arith, same))
  Step-IsStuck {t} (not_lapsed x e) same h = absurd (omega (arith, same))
  Step-IsStuck {t} (finished k task_id e) same h = absurd (omega (arith, h.releasing))
  Step-IsStuck {t} (expired b d quiet e f g) same h =
      cc (Spent-lasts t.refused b (view t.db c) h.spent e)
  Step-IsStuck {t} (elsewhere d e) same h = record {
    spent = subst (Spent _) (sym e) h.spent;
    taken = h.taken;
    serving = h.serving;
    releasing = h.releasing;
  }

  Reach-IsStuck :
      {t u : Traffic R config c}
      → Reach R config c t u
      → u.lapses ≡ t.lapses
      → IsStuck R config c t
      → IsStuck R config c u
  Reach-IsStuck here same h = h
  Reach-IsStuck (later r s) same h =
      let a = Reach-lapses r in
      let b = Step-lapses s in
      Step-IsStuck s (omega (arith, a, b, same)) (Reach-IsStuck r (omega (arith, a, b, same)) h)

  -- The state after a DECR that found no counter.
  abbrev pub overdrawn : Traffic R config c → Traffic R config c
  overdrawn t = record t { db = (R.decr c t.db).1; refused = 1 }

  first-IsStuck :
      (t : Traffic R config c) (n : ℤ)
      → IsQuiet R config c t
      → view t.db c ≡ none
      → (R.decr c t.db).0 ≡ ok n
      → IsStuck R config c (overdrawn t)
  first-IsStuck t n quiet absent e = record {
    spent =
        subst (Spent 1)
          (sym (
            bucket-change_bucket c (added (negsuc 0)) (view t.db) _
              ((R.decr-Updates c t.db).0 n e).1
            ∙ ap (added (negsuc 0)) absent))
          (omega arith, refl);
    taken = quiet.taken;
    serving = quiet.serving;
    releasing = quiet.releasing;
  }

  continue-not_ok :
      (x : Result TokenError ℤ × Db)
      → ((n : ℤ) → x.0 ≡ ok n → ltb_ℤ n (pos 0) ≡ true)
      → (continue (settle R config c) x).0 ≢ ok tt
  unfolding settle ◌>>=◌ attempt fail
  continue-not_ok (ok n, d) h e = ground (arith, h n refl)
  continue-not_ok (err x, d) h e = cc

  Stuck-refused :
      {t : Traffic R config c}
      → IsStuck R config c t
      → (acquire_request_token R config c t.db).0 ≢ ok tt
  unfolding acquire_request_token ◌>>=◌
  Stuck-refused {t} h =
      continue-not_ok (R.decr c t.db) λ n e. decr-overdrawn t.refused t.db n e h.spent

  -- If a request takes a token while the container's counter is absent and no other request is under
  -- way (the counter has expired, and the discovery has not set it again yet), then whatever happens
  -- later, in any order and with any failures, until the heart beat of an earlier request expires in
  -- a gateway: no request of the container is served any more, and no attempt to get a token
  -- succeeds.
  pub Reach-stuck :
      {u : Traffic R config c} (t : Traffic R config c) (n : ℤ)
      → IsQuiet R config c t
      → view t.db c ≡ none
      → (R.decr c t.db).0 ≡ ok n
      → Reach R config c (overdrawn t) u
      → u.lapses ≡ t.lapses
      → (u.serving ≡ 0) × ((acquire_request_token R config c u.db).0 ≢ ok tt)
  Reach-stuck t n quiet absent e r same =
      let h = Reach-IsStuck r same (first-IsStuck t n quiet absent e) in
      (h.serving, Stuck-refused h)
