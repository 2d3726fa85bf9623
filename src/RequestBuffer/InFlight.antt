-- ===== src/RequestBuffer/InFlight.antt =====
-- How many requests of a container are in flight.
use beta.Base.{ℕ, ◌+◌, ◌≤◌, ◌≡◌, String, Option, none, some}
use beta.Base.Int.{pos, pos_part, neg_part, ◌<ℤ◌}
use beta.RequestBuffer.{TokenRedis, StubConfig, Bucket, max_tokens}
use beta.RequestBuffer.Tokens.{Traffic}

-- The tokens that are left and the `n` that are held or being taken back are at most `m`.
abbrev pub Bounded : ℕ → ℕ → Option Bucket → Type 0
Bounded m n none = n ≡ 0
Bounded m n (some b) = pos_part b.tokens + n ≤ m + neg_part b.tokens

-- The requests that hold a token, or have yet to take back the one that they overdrew.
abbrev pub under_way : {R : TokenRedis} {config : StubConfig} {c : String} → Traffic R config c → ℕ
under_way t = t.taken + t.serving + t.refused

-- The tokens of a container that are left, held, or being taken back are at most all tokens,
-- and those that were released for expired heart beats.
pub record IsBounded (R : TokenRedis) (config : StubConfig) (c : String) (t : Traffic R config c)
    : Type 0 where
  pub bounded : Bounded (max_tokens config + t.lapses) (under_way t) (R.view t.db c)
  pub held : t.taken + t.serving ≤ max_tokens config + t.lapses

module _ (R : TokenRedis) (config : StubConfig) (c : String) (lives : pos 0 <ℤ config.timeout) where
  open R use {Db, view}

  -- `n` tokens are held or being taken back; `l` were released for expired heart beats.
  abbrev Holding : ℕ → ℕ → Option Bucket → Type 0
  Holding l n = Bounded (max_tokens config + l) n
