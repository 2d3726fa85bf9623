-- ===== src/RequestBuffer/Tokens.antt =====
-- One container's bucket over time: the commands of all the gateways that use it, one at a time.
use beta.Base.{ℕ, suc, ◌≡◌, String, true, false, none, some, ok, err}
use beta.Base.Int.{ℤ, pos, ltb_ℤ}
use beta.RequestBuffer.{
  TokenRedis, TokenError, StubConfig, Bucket, request_tokens, settle, after_incr,
}

module _ (R : TokenRedis) (config : StubConfig) (c : String) where
  open R use {Db, view, decr, incr}

  -- How many requests are at each place of the code: `taken` have decremented the count to a number
  -- that is not negative, and `refused` to a negative one; `serving` have been admitted, and
  -- `releasing` have incremented the count and not yet set its time to live. `lapses` is how often a
  -- buffer has released a token because the heart beat of a request expired.
  pub record Traffic : Type 0 where
    pub db : Db
    pub taken : ℕ
    pub refused : ℕ
    pub serving : ℕ
    pub releasing : ℕ
    pub lapses : ℕ

  pub record IsQuiet (t : Traffic) : Type 0 where
    pub taken : t.taken ≡ 0
    pub refused : t.refused ≡ 0
    pub serving : t.serving ≡ 0
    pub releasing : t.releasing ≡ 0

  -- Each command can fail, before or after it has taken place. An admitted request is released once
  -- by its handler; and each gateway's buffer releases a token when a heart beat of the container
  -- expires, which has nothing to do with where that request is.
  -- The key expires only while no request is at any of these places: requests end within the
  -- timeout that was set last.
  pub data Step (t : Traffic) : Traffic → Type 0 where
    discovered : Step t (record t { db = (request_tokens R config c t.db).1 })
    took :
        (n : ℤ)
        → (decr c t.db).0 ≡ ok n
        → ltb_ℤ n (pos 0) ≡ false
        → Step t (record t { db = (decr c t.db).1; taken = suc t.taken })
    overdrew :
        (n : ℤ)
        → (decr c t.db).0 ≡ ok n
        → ltb_ℤ n (pos 0) ≡ true
        → Step t (record t { db = (decr c t.db).1; refused = suc t.refused })
    not_taken :
        (e : TokenError) → (decr c t.db).0 ≡ err e → Step t (record t { db = (decr c t.db).1 })
    admitted :
        (n : ℤ) (k : ℕ)
        → ltb_ℤ n (pos 0) ≡ false
        → t.taken ≡ suc k
        → (settle R config c n t.db).0 ≡ ok tt
        → Step t
            (record t { db = (settle R config c n t.db).1; taken = k; serving = suc t.serving })
    not_admitted :
        (n : ℤ) (k : ℕ) (e : TokenError)
        → ltb_ℤ n (pos 0) ≡ false
        → t.taken ≡ suc k
        → (settle R config c n t.db).0 ≡ err e
        → Step t (record t { db = (settle R config c n t.db).1; taken = k })
    turned_away :
        (n : ℤ) (k : ℕ)
        → ltb_ℤ n (pos 0) ≡ true
        → t.refused ≡ suc k
        → Step t (record t { db = (settle R config c n t.db).1; refused = k })
    released :
        (k : ℕ)
        → t.serving ≡ suc k
        → (incr c t.db).0 ≡ ok tt
        → Step t (record t { db = (incr c t.db).1; serving = k; releasing = suc t.releasing })
    not_released :
        (k : ℕ) (e : TokenError)
        → t.serving ≡ suc k
        → (incr c t.db).0 ≡ err e
        → Step t (record t { db = (incr c t.db).1; serving = k })
    lapsed :
        (incr c t.db).0 ≡ ok tt
        → Step t
            (record t { db = (incr c t.db).1; releasing = suc t.releasing; lapses = suc t.lapses })
    not_lapsed :
        (e : TokenError)
        → (incr c t.db).0 ≡ err e
        → Step t (record t { db = (incr c t.db).1; lapses = suc t.lapses })
    finished :
        (k : ℕ) (task_id : String)
        → t.releasing ≡ suc k
        → Step t (record t { db = (after_incr R config c task_id t.db).1; releasing = k })
    expired :
        (b : Bucket) (d : Db)
        → IsQuiet t
        → view t.db c ≡ some b
        → b.expires ≡ true
        → view d c ≡ none
        → Step t (record t { db = d })
    elsewhere : (d : Db) → view d c ≡ view t.db c → Step t (record t { db = d })

  pub data Reach (t : Traffic) : Traffic → Type 0 where
    here : Reach t t
    later : {u v : Traffic} → Reach t u → Step u v → Reach t v
