-- ===== src/Server/Limits.antt =====
-- server/server.go: the per-address rate limiter and the limits on request bodies. The token bucket is
-- golang.org/x/time/rate: its type and a new one are parameters. An address is what RemoteAddr holds,
-- with its port.
use llm_server_manager.Base.{
  ◌≡◌, Bool, String, ◌==◌, eq_iff, eq_refl, none, some, List, [], ◌∷◌, ℕ, ◌-◌, ◌*◌, ◌≤◌, ltb,
  if◌then◌else◌, lookup, insert, lookup-insert, strip_prefix?, is_some, arith, if_cases, ap, ◌∙◌,
}

pub record Entry (Bucket : Type 0) : Type 0 where
  pub limiter : Bucket
  pub last_used : ℕ

pub record RateLimiter (Bucket : Type 0) : Type 0 where
  pub limiters : List (String × Entry Bucket)
  pub last_cleanup : ℕ
  pub cleanup_interval : ℕ

-- Five minutes, in nanoseconds.
abbrev pub cleanup_interval : ℕ
cleanup_interval = 300000000000

module _ {Bucket : Type 0} where
  unfoldable pub new_rate_limiter : ℕ → RateLimiter Bucket
  new_rate_limiter now = record {
    limiters = [];
    last_cleanup = now;
    cleanup_interval = cleanup_interval;
  }

  -- cleanup: the entries that were not used for longer than the interval go.
  unfoldable pub cleanup : ℕ → ℕ → List (String × Entry Bucket) → List (String × Entry Bucket)
  cleanup now interval [] = []
  cleanup now interval ((ip, e) ∷ es) =
      if ltb interval (now - e.last_used)
      then cleanup now interval es
      else (ip, e) ∷ cleanup now interval es

  -- The entry of an address, new or marked as used now.
  abbrev pub touched : Bucket → String → ℕ → RateLimiter Bucket → Entry Bucket
  touched fresh ip now rl = elim (lookup ip rl.limiters) [
    | none ↦ record { limiter = fresh; last_used = now }
    | some e ↦ record e { last_used = now }
  ]

  -- getLimiter, at one time of the clock.
  unfoldable pub get_limiter :
      Bucket → String → ℕ → RateLimiter Bucket → RateLimiter Bucket × Bucket
  unfolding cleanup
  get_limiter fresh ip now rl =
      let entry = touched fresh ip now rl in
      let used = insert ip entry rl.limiters in
      (
        if ltb rl.cleanup_interval (now - rl.last_cleanup)
            then record rl { limiters = cleanup now rl.cleanup_interval used; last_cleanup = now }
            else record rl { limiters = used },
        entry.limiter,
      )

abbrev pub max_body_bytes : ℕ
max_body_bytes = 10 * 1048576

-- The limit that the middleware chooses by the request's path.
unfoldable pub body_limit : String → ℕ
body_limit path =
    if path == "/api/v1/config"
    then 1048576
    else if is_some (strip_prefix? "/v1/" path)
    then max_body_bytes
    else 1024

-- maxRequestSize on a request that declares its length: whether it is refused.
unfoldable pub refuses_length : String → ℕ → Bool
unfolding body_limit
refuses_length path content_length = ltb (body_limit path) content_length

module _ {Bucket : Type 0} where
  cleanup-lookup :
      (now interval : ℕ) (k : String) (e : Entry Bucket) (es : List (String × Entry Bucket))
      → lookup k es ≡ some e
      → now - e.last_used ≤ interval
      → lookup k (cleanup now interval es) ≡ some e
  unfolding cleanup lookup
  cleanup-lookup now interval k e [] h r = h
  cleanup-lookup now interval k e ((ip, x) ∷ es) h r =
      if_cases (λ l. lookup k l ≡ some e) (ltb interval (now - x.last_used))
        (λ old. ground (arith, eq_iff ip k, cleanup-lookup now interval k e es))
        (λ new. ground (arith, eq_iff ip k, cleanup-lookup now interval k e es))

  insert-own :
      (ip : String) (e : Entry Bucket) (m : List (String × Entry Bucket))
      → lookup ip (insert ip e m) ≡ some e
  insert-own ip e m = lookup-insert ip ip e m ∙ rw (eq_refl ip)

  touched-entry :
      (fresh : Bucket) (ip : String) (now : ℕ) (rl : RateLimiter Bucket)
      → touched fresh ip now rl
        ≡ record { limiter = (touched fresh ip now rl).limiter; last_used = now }
  touched-entry fresh ip now rl = ground arith

  -- A request gets the bucket that its address had, or a fresh one, and the entry is kept under that
  -- address and marked as used now, also if old entries are cleaned up in the same call.
  pub get_limiter-own :
      (fresh : Bucket) (ip : String) (now : ℕ) (rl : RateLimiter Bucket)
      → let (rl', bucket) = get_limiter fresh ip now rl in
        (lookup ip rl'.limiters ≡ some (record { limiter = bucket; last_used = now }))
        × ((e : Entry Bucket) → lookup ip rl.limiters ≡ some e → bucket ≡ e.limiter)
  unfolding get_limiter
  get_limiter-own fresh ip now rl =
      let e = touched fresh ip now rl in
      let used = insert-own ip e rl.limiters in
      let same = touched-entry fresh ip now rl in
      (
        if_cases
            (λ (r : RateLimiter Bucket).
              lookup ip r.limiters ≡ some (record { limiter = e.limiter; last_used = now }))
            (ltb rl.cleanup_interval (now - rl.last_cleanup))
            (λ _.
              cleanup-lookup now rl.cleanup_interval ip e (insert ip e rl.limiters) used
                (ground (arith, same))
              ∙ ap some same)
            (λ _. used ∙ ap some same),
        λ x q. ground arith,
      )
