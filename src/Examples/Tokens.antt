-- ===== src/Examples/Tokens.antt =====
-- The tokens of one container, in a store in memory.
use beta.Base.{ℕ, ◌≡◌, ◌≢◌, refl, sym, inr, false, none, some, ok}
use beta.Base.Int.{pos, negsuc, ◌+ℤ◌}
use beta.Base.Io.{Io, Updates, ok-injective, ◌>>=◌, ◌>>◌, pure, attempt}
use beta.RequestBuffer.{
  TokenRedis, TokenStore, TokenError, StubConfig, change_bucket, added, created, expiring, count_of,
  count_or_zero, is_absent, max_tokens, request_tokens, settle, acquire_request_token,
  after_request, release_request_token, after_incr,
}
use beta.RequestBuffer.Tokens.{Traffic, IsQuiet, here}
use beta.RequestBuffer.Stuck.{overdrawn, Reach-stuck}

abbrev updating :
    {A : Type 0} → (TokenStore → TokenStore) → (TokenStore → A) → Io TokenStore TokenError A
updating change answer s = (ok (answer s), change s)

updating-Updates :
    {A : Type 0} (change : TokenStore → TokenStore) (answer : TokenStore → A)
    → Updates (λ s. s) (updating change answer) change answer
updating-Updates change answer s = (λ a e. (sym (ok-injective e), refl), inr refl)

abbrev token_memory : TokenRedis
token_memory = record {
  Db = TokenStore;
  view = λ s. s;
  get = λ c. updating (λ s. s) (λ s. count_of (s c));
  set_nx = λ c x. updating (change_bucket c (created x)) (λ s. is_absent (s c));
  decr = λ c. updating (change_bucket c (added (negsuc 0))) (λ s. count_or_zero (s c) +ℤ negsuc 0);
  incr = λ c. updating (change_bucket c (added (pos 1))) (λ s. tt);
  expire = λ c x. updating (change_bucket c (expiring x)) (λ s. tt);
  del_heartbeat = λ task_id c. updating (λ s. s) (λ s. tt);
  set_keep_warm = λ c x. updating (λ s. s) (λ s. tt);
  get-Updates = λ c. updating-Updates (λ s. s) (λ s. count_of (s c));
  set_nx-Updates = λ c x. updating-Updates (change_bucket c (created x)) (λ s. is_absent (s c));
  decr-Updates = λ c.
      updating-Updates (change_bucket c (added (negsuc 0))) (λ s. count_or_zero (s c) +ℤ negsuc 0);
  incr-Updates = λ c. updating-Updates (change_bucket c (added (pos 1))) (λ s. tt);
  expire-Updates = λ c x. updating-Updates (change_bucket c (expiring x)) (λ s. tt);
  del_heartbeat-Keeps = λ task_id c s. refl;
  set_keep_warm-Keeps = λ c x s. refl;
}

abbrev two_workers : StubConfig
two_workers = record {
  workers = 2;
  concurrent_requests = 1;
  is_asgi = false;
  timeout = pos 180;
  keep_warm_seconds = 60;
}

abbrev no_traffic : Traffic token_memory two_workers "c1"
no_traffic = record {
  db = λ c. none;
  taken = 0;
  refused = 0;
  serving = 0;
  releasing = 0;
  lapses = 0;
}

no_traffic-IsQuiet : IsQuiet token_memory two_workers "c1" no_traffic
no_traffic-IsQuiet = record { taken = refl; refused = refl; serving = refl; releasing = refl }

-- The tokens are set, and a request takes one.
abbrev discovered_db : TokenStore
discovered_db = (request_tokens token_memory two_workers "c1" (λ c. none)).1

abbrev one_served : Traffic token_memory two_workers "c1"
one_served = record {
  db = (settle token_memory two_workers "c1" (pos 1) (token_memory.decr "c1" discovered_db).1).1;
  taken = 0;
  refused = 0;
  serving = 1;
  releasing = 0;
  lapses = 0;
}

first_decr : (token_memory.decr "c1" (λ c. none)).0 ≡ ok (negsuc 0)
unfolding ◌+ℤ◌
first_decr = refl

Reach-stuck_example :
    ◌≡◌ {A = ℕ} 0 0
    × ((acquire_request_token token_memory two_workers "c1"
          (overdrawn token_memory two_workers "c1" no_traffic).db).0
        ≢ ok tt)
Reach-stuck_example =
    Reach-stuck token_memory two_workers "c1" no_traffic (negsuc 0) no_traffic-IsQuiet refl
      first_decr here refl

-- A request that is served gives its token back.
released_again :
    count_of ((after_request token_memory two_workers "c1" "t1" one_served.db).1 "c1")
    ≡ some (pos 2)
unfolding settle request_tokens after_request release_request_token after_incr attempt pure ◌>>=◌
    ◌>>◌ ◌+ℤ◌ max_tokens
released_again = refl
