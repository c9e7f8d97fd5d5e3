-- ===== src/Cache/Policy/Freshness.antt =====
-- The age and the freshness of a stored response (policy.rs) as time passes.
use chromulate.Prelude.{◌≤◌, true, ◌≡◌, arith}
use chromulate.Prelude.Time.{Instant}
use chromulate.Prelude.Headers.{HeaderMaps}
use chromulate.Cache.Date.{Platform}
use chromulate.Cache.Directive.{CacheControl}
use chromulate.Cache.Entry.{CacheEntry}
use chromulate.Cache.Policy.{CacheConfig, current_age, is_fresh}

module _ (hm : HeaderMaps) (p : Platform) where
  current_age_mono :
      (entry : CacheEntry hm.Headers) (now later : Instant)
      → now ≤ later
      → current_age hm p entry now ≤ current_age hm p entry later
  unfolding current_age
  current_age_mono entry now later h = ground arith

  -- A stored response that is fresh at some time was fresh at every earlier time: once it is
  -- stale it stays stale, whatever its header fields and the configuration.
  pub is_fresh-antitone :
      (entry : CacheEntry hm.Headers) (response_cc : CacheControl) (config : CacheConfig)
      (now later : Instant)
      → now ≤ later
      → is_fresh hm p entry response_cc config later ≡ true
      → is_fresh hm p entry response_cc config now ≡ true
  unfolding is_fresh
  is_fresh-antitone entry response_cc config now later h f =
      ground (arith, current_age_mono entry now later h)
