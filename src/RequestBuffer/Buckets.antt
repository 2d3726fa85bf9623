-- ===== src/RequestBuffer/Buckets.antt =====
-- What the commands of the buffer do to the bucket of one container.
use mathlib.Core.Path.{subst}
use beta.Base.{
  ◌≡◌, refl, sym, ap, ◌∙◌, ◌⊎◌, inl, inr, String, Bool, true, false, Option, none, some,
  if◌then◌else◌, str_eq_iff,
}
use beta.Base.Int.{ℤ, pos, ltb_ℤ}
use beta.Base.Io.{Io, Updates, attempt, ◌>>=◌, fail}
use beta.Base.Safe.{Preserves, >>=-Preserves, >>-Preserves, pure-Preserves, fail-Preserves}
use beta.RequestBuffer.{
  TokenRedis, TokenStore, TokenError, StubConfig, Bucket, change_bucket, added, created, expiring,
  is_absent, max_tokens, request_tokens, settle, after_incr, counted, or_set, after_set_nx,
}

pub bucket-change_bucket :
    (c : String) (f : Option Bucket → Option Bucket) (v v' : TokenStore)
    → v' ≡ change_bucket c f v
    → v' c ≡ f (v c)
bucket-change_bucket c f v v' e =
    ap (λ w. w c) e ∙ ap (λ b. if b then f (v c) else v c) ((str_eq_iff c c).1 refl)

module _ (R : TokenRedis) (c : String) where
  open R use {Db, view}

  -- What a command does to the bucket, whether it answers or fails.
  pub Updates-bucket :
      {A : Type 0} (m : Io Db TokenError A) (f : Option Bucket → Option Bucket)
      (answer : TokenStore → A) (d : Db)
      → Updates view m (change_bucket c f) answer
      → (view (m d).1 c ≡ view d c) ⊎ (view (m d).1 c ≡ f (view d c))
  Updates-bucket m f answer d u = elim (u d).1 [
    | inl same ↦ inl (ap (λ w. w c) same)
    | inr changed ↦ inr (bucket-change_bucket c f (view d) _ changed)
  ]

  -- A property of buckets that a change turns into another, and that implies the other.
  pub bucket-turns :
      {A : Type 0} (m : Io Db TokenError A) (f : Option Bucket → Option Bucket)
      (answer : TokenStore → A) (P Q : Option Bucket → Type 0) (d : Db)
      → Updates view m (change_bucket c f) answer
      → ((o : Option Bucket) → P o → Q o)
      → ((o : Option Bucket) → P o → Q (f o))
      → P (view d c)
      → Q (view (m d).1 c)
  bucket-turns m f answer P Q d u keep change p = elim (Updates-bucket m f answer d u) [
    | inl same ↦ subst Q (sym same) (keep _ p)
    | inr changed ↦ subst Q (sym changed) (change _ p)
  ]

-- The commands keep a property of the bucket that the changes keep.
module _ (R : TokenRedis) (config : StubConfig) (c : String) (P : Option Bucket → Type 0) where
  open R use {Db, view}

  abbrev pub OfBucket : Db → Type 0
  OfBucket d = P (view d c)

  get-Preserves : Preserves OfBucket (R.get c)
  get-Preserves d p = elim (R.get-Updates c d).1 [
    | inl same ↦ subst (λ (v : TokenStore). P (v c)) (sym same) p
    | inr same ↦ subst (λ (v : TokenStore). P (v c)) (sym same) p
  ]

  counted-Preserves : (o : Option ℤ) → Preserves OfBucket (counted R config o)
  counted-Preserves none = fail-Preserves OfBucket _ _
  counted-Preserves (some x) = pure-Preserves OfBucket _ _

  set_nx-Preserves :
      ((o : Option Bucket) → P o → P (created (pos (max_tokens config)) o))
      → Preserves OfBucket (R.set_nx c (pos (max_tokens config)))
  set_nx-Preserves creates d p =
      bucket-turns R c _ _ (λ s. is_absent (s c)) P P d (R.set_nx-Updates c _) (λ o q. q) creates p

  pub request_tokens-Preserves :
      ((o : Option Bucket) → P o → P (created (pos (max_tokens config)) o))
      → Preserves OfBucket (request_tokens R config c)
  unfolding request_tokens
  request_tokens-Preserves creates =
      >>=-Preserves OfBucket (R.get c) (or_set R config c) get-Preserves or_set-Preserves
    where
      after_set_nx-Preserves : (b : Bool) → Preserves OfBucket (after_set_nx R config c b)
      after_set_nx-Preserves true = pure-Preserves OfBucket _ _
      after_set_nx-Preserves false =
          >>=-Preserves OfBucket (R.get c) (counted R config) get-Preserves counted-Preserves

      or_set-Preserves : (o : Option ℤ) → Preserves OfBucket (or_set R config c o)
      or_set-Preserves none =
          >>=-Preserves OfBucket (R.set_nx c (pos (max_tokens config))) (after_set_nx R config c)
            (set_nx-Preserves creates) after_set_nx-Preserves
      or_set-Preserves (some x) = pure-Preserves OfBucket _ _

  expire-Preserves :
      ((o : Option Bucket) → P o → P (expiring config.timeout o))
      → Preserves OfBucket (R.expire c config.timeout)
  expire-Preserves expires d p =
      bucket-turns R c _ _ _ P P d (R.expire-Updates c config.timeout) (λ o q. q) expires p

  pub settle_taken-Preserves :
      (n : ℤ)
      → ltb_ℤ n (pos 0) ≡ false
      → ((o : Option Bucket) → P o → P (expiring config.timeout o))
      → Preserves OfBucket (settle R config c n)
  unfolding settle
  settle_taken-Preserves n e expires = rw e (expire-Preserves expires)

  pub after_incr-Preserves :
      (task_id : String)
      → ((o : Option Bucket) → P o → P (expiring config.timeout o))
      → Preserves OfBucket (after_incr R config c task_id)
  unfolding after_incr
  after_incr-Preserves task_id expires =
      >>-Preserves OfBucket (R.expire c config.timeout) (R.del_heartbeat task_id c)
        (expire-Preserves expires)
        λ d p. subst (λ (v : TokenStore). P (v c)) (sym (R.del_heartbeat-Keeps task_id c d)) p

-- What taking a refused token back does to the bucket.
pub settle_refused-turns :
    (R : TokenRedis) (config : StubConfig) (c : String) (n : ℤ) (P Q : Option Bucket → Type 0)
    (d : R.Db)
    → ltb_ℤ n (pos 0) ≡ true
    → ((o : Option Bucket) → P o → Q o)
    → ((o : Option Bucket) → P o → Q (added (pos 1) o))
    → P (R.view d c)
    → Q (R.view (settle R config c n d).1 c)
unfolding settle ◌>>=◌ attempt fail
settle_refused-turns R config c n P Q d e keep change p =
    rw e (bucket-turns R c _ _ _ P Q d (R.incr-Updates c) keep change p)
