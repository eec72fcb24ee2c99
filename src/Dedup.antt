-- ===== src/Dedup.antt =====
-- The deduplication by message id that messaging/rabbitMQ/consumer.py and
-- messaging/kafka/consumer.py share, over Django's cache.
pub mod Once
pub mod Samples
use microservice_wallet_serv.Base.{
  ℕ, ◌+◌, ◌*◌, ◌≡◌, Bool, true, false, not, ◌&&◌, ltb, if◌then◌else◌, ◌++◌,
}
use microservice_wallet_serv.Base.Text.{Text, text, same_text, is_truthy}

-- `django.core.cache.cache` over its contents: whether a key holds a value at a time, and `set`
-- with a timeout. A value is there until its timeout has passed, and a key does not touch another.
pub record Cache (K : Type 0) : Type 0 where
  pub holds : ℕ → Text → K → Bool
  pub set : ℕ → Text → ℕ → K → K
  pub holds-set :
      (now at timeout : ℕ) (k j : Text) (c : K)
      → holds now j (set at k timeout c)
        ≡ (if same_text j k then ltb now (at + timeout) else holds now j c)

-- `not message_id or message_id == "unknown"` is false
unfoldable pub is_tracked : Text → Bool
is_tracked id = is_truthy id && not (same_text id (text "unknown"))

-- `timeout=7 * 24 * 3600`
abbrev pub week : ℕ
week = 7 * 24 * 3600

-- `is_duplicate`: the answer, and the cache after
unfoldable pub is_duplicate : {K : Type 0} → Cache K → Text → ℕ → Text → K → Bool × K
unfolding is_tracked
is_duplicate cache prefix now id c =
    if not (is_tracked id)
    then (false, c)
    else if cache.holds now (prefix ++ id) c
    then (true, c)
    else (false, cache.set now (prefix ++ id) week c)
